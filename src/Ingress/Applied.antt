-- ===== src/Ingress/Applied.antt =====
-- pkg/ingress/apply_all.go: what applied documents leave in the model.
use Prim.Native.Nat.{zero, suc}
use mathlib.Core.List.{Memᴰ}
use mathlib.Core.List.Memᴰ
use modelsrv.Prelude.{
  ◌↔◌, ◌⊎◌, get_elem?, take, sym, subst, ℕ, ◌+◌, ◌≡◌, refl, ap, arith, String, Bool, some, List, [],
  ◌∷◌, ◌++◌, ◌==◌, nat_eq, ◌&&◌, if◌then◌else◌, length, inl, inr,
}
use modelsrv.Event.{Uuid}
use modelsrv.Model.Stores.{Store, store_eq, kind_of}
use modelsrv.Model.State
use modelsrv.Model.State.{ModelData, Objects, Result, new_model, after}
use modelsrv.Model.Calls.{adds, get_by_id}
use modelsrv.Model.Wiring.{get_by_id_lem}
use modelsrv.Model.Effects.{event_of, Sends, perform-Sends, Changes, perform-Changes}
use modelsrv.Ingress.Values.{Fields, IngressError, Outcome, done, failed, Parsers}
use modelsrv.Ingress.Resources.{Resource, resources}
use modelsrv.Ingress.Documents.{
  Document, DocumentError, ProcessResult, apply_document, apply_from, apply_all, model_after,
  counted,
}
use modelsrv.Ingress.Adds.{common, apply_document-adds, Outcome-cases}

module _ (p : Parsers) (parses_amount : String → Bool) where
  -- One resource was added to the map of the document's kind, under the document's identifier: no
  -- other getter returns anything else than before, and one event was sent.
  abbrev pub IsAdded : ModelData Resource → Document → ModelData Resource → Type 0
  IsAdded m doc u =
      (s : Store) × (spec : Fields) × (r : Resource) × (kind_of s ≡ doc.kind)
      × (doc.spec ≡ some spec)
      × (common p s spec ≡ done r.common)
      × ((t : Store) (other : Uuid)
          → get_by_id u t other
            ≡ (if s == t && r.common.id == other then some r else get_by_id m t other))
      × (u.sink ≡ m.sink ++ (event_of (resources parses_amount) m (adds s r) ∷ []))

  -- A document that is applied has a spec and a kind that has a map. Afterwards the map's getter
  -- returns, under the document's identifier, a resource with that identifier and what else the
  -- document gives of a name, a description and annotations, as far as the kind takes them: an
  -- instance, a capability or a parameter takes no description, a rule no annotations, and a
  -- finding is also named by its summary. All other getters return what they did, and the sink has
  -- received one event, of the kind and the identifier.
  pub apply_document-IsAdded :
      (m : ModelData Resource) (doc : Document) {u : ModelData Resource}
      → apply_document p (resources parses_amount) m doc ≡ done u
      → IsAdded m doc u
  apply_document-IsAdded m doc {u} h =
      let ob : Objects Resource = resources parses_amount in
      let (s, spec, r, kind, given, i, q) = apply_document-adds p ob m doc h in
      let changes : Changes ob m (adds s r) (State.ok u) =
        rw q at (perform-Changes ob m (adds s r)) in
      let sends : Sends ob m (event_of ob m (adds s r)) (State.ok u) =
        rw q at (perform-Sends ob m (adds s r)) in
      (
        s,
        spec,
        r,
        kind,
        given,
        i,
        λ t other. rw (get_by_id_lem u t other, get_by_id_lem m t other) (changes t other),
        sends,
      )

module _ (p : Parsers) (ob : Objects Resource) where
  -- The error is that of the document at the place, on the model that the documents before it leave.
  abbrev pub Fails : ℕ → ModelData Resource → List Document → ℕ → IngressError → Type 0
  Fails i m docs n e =
      (doc : Document) × (get_elem? docs n ≡ some doc)
      × (apply_document p ob (apply_from p ob i m (take n docs)).0 doc ≡ failed e)

  counted-cases :
      (i : ℕ) (result : Outcome (ModelData Resource)) (out : ProcessResult) (d : DocumentError)
      → Memᴰ d (counted i result out).failed_documents
      → ((d.index ≡ i) × (result ≡ failed d.error)) ⊎ Memᴰ d out.failed_documents
  counted-cases i (done u) out d h = inr h
  counted-cases i (failed e) out d (Memᴰ.head q) =
      inl (ap (λ r. r.index) q, ap (λ r. failed r.error) (sym q))
  counted-cases i (failed e) out d (Memᴰ.tail t) = inr t

  counted-keeps :
      (i : ℕ) (result : Outcome (ModelData Resource)) (out : ProcessResult) (d : DocumentError)
      → Memᴰ d out.failed_documents
      → Memᴰ d (counted i result out).failed_documents
  counted-keeps i (done u) out d h = h
  counted-keeps i (failed e) out d h = Memᴰ.tail h

  reported-Fails :
      (i : ℕ) (m : ModelData Resource) (docs : List Document) (d : DocumentError)
      → Memᴰ d (apply_from p ob i m docs).1.failed_documents
      → (n : ℕ) × (d.index ≡ i + n) × Fails i m docs n d.error
  unfolding apply_from
  reported-Fails i m [] d h = absurd (Memᴰ.not-nil h)
  reported-Fails i m (doc ∷ docs) d h =
      let result = apply_document p ob m doc in
      let u = model_after m result in
      elim (counted-cases i result (apply_from p ob (i + 1) u docs).1 d h) [
        | inl (k, q) ↦ (0, omega arith, (doc, refl, q))
        | inr t ↦ let (n, k, f) = reported-Fails (i + 1) u docs d t in (suc n, omega arith, f)
      ]

  Fails-reported :
      (i : ℕ) (m : ModelData Resource) (docs : List Document) (n : ℕ) (e : IngressError)
      → Fails i m docs n e
      → Memᴰ (record { index = i + n; error = e }) (apply_from p ob i m docs).1.failed_documents
  unfolding apply_from
  Fails-reported i m [] n e (x, g, f) = absurd cc
  Fails-reported i m (doc ∷ docs) zero e (x, g, f) =
      let same : doc ≡ x = cc in
      let start : i + 0 ≡ i = omega arith in
      let q : apply_document p ob m doc ≡ failed e = rw same f in rw (q, start) (Memᴰ.head refl)
  Fails-reported i m (doc ∷ docs) (suc n) e f =
      let shift : i + suc n ≡ i + 1 + n = omega arith in
      let result = apply_document p ob m doc in
      let u = model_after m result in
      let d : DocumentError = record { index = i + 1 + n; error = e } in
      rw shift (
        counted-keeps i result (apply_from p ob (i + 1) u docs).1 d
          (Fails-reported (i + 1) u docs n e f))

  apply_from-length :
      (i : ℕ) (m : ModelData Resource) (docs : List Document)
      → let out = (apply_from p ob i m docs).1 in
        out.applied + length out.failed_documents ≡ length docs
  unfolding apply_from
  apply_from-length i m [] = refl
  apply_from-length i m (doc ∷ docs) = elim (Outcome-cases (apply_document p ob m doc)) [
    | inl (e, h) ↦ rw h (let x = apply_from-length (i + 1) m docs in omega arith)
    | inr (u, h) ↦ rw h (let x = apply_from-length (i + 1) u docs in omega arith)
  ]

  -- The failed documents are reported under their indices from 0, each with the error that it meets
  -- in the model as the documents before it leave it, and no others are; and the number of the
  -- reported and that of the applied are together the number of documents.
  pub apply_all-reports :
      (m : ModelData Resource) (docs : List Document)
      → let out = (apply_all p ob m docs).1 in
        ((n : ℕ) (e : IngressError)
          → Memᴰ (record { index = n; error = e }) out.failed_documents ↔ (
              (doc : Document) × (get_elem? docs n ≡ some doc)
              × (apply_document p ob (apply_all p ob m (take n docs)).0 doc ≡ failed e)))
        × (out.applied + length out.failed_documents ≡ length docs)
  unfolding apply_all
  apply_all-reports m docs = (
    λ n e. (
      λ h.
          let (j, k, f) = reported-Fails 0 m docs (record { index = n; error = e }) h in
          let same : j ≡ n = omega arith in subst (λ t. Fails 0 m docs t e) same f,
      λ f. let start : 0 + n ≡ n = omega arith in rw start at (Fails-reported 0 m docs n e f),
    ),
    apply_from-length 0 m docs,
  )
