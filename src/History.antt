-- ===== src/History.antt =====
-- internal/events/history_ring.go: the ring of the most recent stored events. Each index that Add
-- and Snapshot use lies inside the buffer (`Ring.IsValid`), where Go would panic otherwise.
pub mod Ring
pub mod Retained
mod Tests
use modelsrv.Prelude.{
  ℕ, ◌+◌, ◌%◌, Bool, List, ◌++◌, ℤ, is_nonpositive, to_ℕ, nat_beq, ltb, get_or, set, take, drop,
  replicate, if◌then◌else◌,
}
use modelsrv.Event.{StoredEvent, zero_event}

-- `DefaultHistoryLimit`
abbrev pub default_history_limit : ℕ
default_history_limit = 1000

-- `historyRing`
pub record HistoryRing {ℓ} (O : Type ℓ) : Type ℓ where
  pub buf : List (StoredEvent O)
  pub limit : ℕ
  pub next : ℕ
  pub size : ℕ
  pub compaction_seq : ℕ
  pub compaction_at : ℕ

-- The limit in force: what was asked for, if positive.
abbrev pub ring_limit : ℤ → ℕ
ring_limit limit = if is_nonpositive limit then default_history_limit else to_ℕ limit

module _ {ℓ} {O : Type ℓ} where
  unfoldable pub new_history_ring : ℤ → HistoryRing O
  new_history_ring limit = record {
    buf = replicate (ring_limit limit) zero_event;
    limit = ring_limit limit;
    next = 0;
    size = 0;
    compaction_seq = 0;
    compaction_at = 0;
  }

  -- The first half of `Add`: the boundary moves if an entry is overwritten, and the size grows if not.
  make_room : HistoryRing O → HistoryRing O
  make_room r =
      let evicted = get_or r.buf r.next zero_event in
      if nat_beq r.size r.limit
      then record r { compaction_seq = evicted.sequence_id; compaction_at = evicted.timestamp }
      else record r { size = r.size + 1 }

  unfoldable pub add : HistoryRing O → StoredEvent O → HistoryRing O
  unfolding make_room
  add r ev =
      let r' = make_room r in
      record r' { buf = set r'.buf r'.next ev; next = (r'.next + 1) % r'.limit }

  unfoldable pub snapshot : HistoryRing O → List (StoredEvent O)
  snapshot r =
      if ltb r.size r.limit then take r.size r.buf else drop r.next r.buf ++ take r.next r.buf

  unfoldable pub compaction_boundary : HistoryRing O → ℕ × ℕ
  compaction_boundary r = (r.compaction_seq, r.compaction_at)
