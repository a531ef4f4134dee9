-- ===== src/Broadcast/Queue/Invariant.antt =====
-- What holds of every queue: bounded, one entry per key, unkeyed numbers not reused, and no frame
-- waiting beside a cleared event.
use archon_vibe.Prelude.{
  ℕ, ◌+◌, ◌≤◌, ◌<◌, String, ◌≡◌, refl, true, false, Option, none, some, [], ◌∷◌, arith, length,
}
use archon_vibe.Prelude.Dict.{Dict, insert, IsDistinct, insert-IsDistinct, length-insert}
use archon_vibe.Broadcast.Queue.{
  FrameKey, frame_key_eq, CoalescingQueue, new_queue, put_at, put_nowait, pop_first, get_nowait,
  get_round, empty,
}

-- Every number in use lies below the next one.
abbrev pub IsNumberedBelow : ℕ → FrameKey → Type 0
IsNumberedBelow n (FrameKey.sequence i) = i < n
IsNumberedBelow n _ = Unit

abbrev pub AreNumberedBelow : ℕ → Dict FrameKey String → Type 0
AreNumberedBelow n [] = Unit
AreNumberedBelow n ((k, m) ∷ d) = IsNumberedBelow n k × AreNumberedBelow n d

-- A caller's key is none of the running numbers.
abbrev pub IsKeyBelow : ℕ → Option FrameKey → Type 0
IsKeyBelow n none = Unit
IsKeyBelow n (some k) = IsNumberedBelow n k

pub record IsValid (q : CoalescingQueue) : Type 0 where
  pub within : length q.items ≤ q.maxsize
  pub distinct : IsDistinct q.items
  pub numbered : AreNumberedBelow q.seq q.items
  pub awake : empty q ≡ false → q.event ≡ true

new_queue-IsValid : (n : ℕ) → IsValid (new_queue n)
unfolding IsDistinct
new_queue-IsValid n = ground arith

AreNumberedBelow-suc :
    (n : ℕ) (d : Dict FrameKey String) → AreNumberedBelow n d → AreNumberedBelow (n + 1) d
AreNumberedBelow-suc n [] h = tt
AreNumberedBelow-suc n ((FrameKey.sequence i, m) ∷ d) h =
    (omega arith, AreNumberedBelow-suc n d h.1)
AreNumberedBelow-suc n ((FrameKey.object t u, m) ∷ d) h = (tt, AreNumberedBelow-suc n d h.1)
AreNumberedBelow-suc n ((FrameKey.named s, m) ∷ d) h = (tt, AreNumberedBelow-suc n d h.1)

AreNumberedBelow-insert :
    (n : ℕ) (k : FrameKey) (m : String) (d : Dict FrameKey String)
    → IsNumberedBelow n k
    → AreNumberedBelow n d
    → AreNumberedBelow n (insert k m d)
unfolding insert
AreNumberedBelow-insert n k m [] hk h = (hk, tt)
AreNumberedBelow-insert n k m ((j, w) ∷ d) hk h =
    ground (arith, AreNumberedBelow-insert n k m d hk h.1)

-- A write with a key that fits the numbering keeps a valid queue valid, with room or without.
pub put_at-IsValid :
    (k : FrameKey) (m : String) (q : CoalescingQueue)
    → IsNumberedBelow q.seq k
    → IsValid q
    → IsValid (put_at k m q).1
unfolding put_at
put_at-IsValid k m q hk v = ground (
  arith,
  length-insert k m q.items,
  insert-IsDistinct k m q.items v.distinct,
  AreNumberedBelow-insert q.seq k m q.items hk v.numbered,
)

-- Whatever is written, accepted or refused, the queue stays valid.
pub put_nowait-IsValid :
    (m : String) (key : Option FrameKey) (q : CoalescingQueue)
    → IsKeyBelow q.seq key
    → IsValid q
    → IsValid (put_nowait m key q).1
unfolding put_nowait
put_nowait-IsValid m none q hk v =
    put_at-IsValid (FrameKey.sequence q.seq) m (record q { seq = q.seq + 1 }) (omega arith)
      (record {
        within = v.within;
        distinct = v.distinct;
        numbered = AreNumberedBelow-suc q.seq q.items v.numbered;
        awake = v.awake;
      })
put_nowait-IsValid m (some k) q hk v = put_at-IsValid k m q hk v

pop_first-IsValid :
    (d : Dict FrameKey String) (q : CoalescingQueue)
    → IsValid (record q { items = d })
    → IsValid (pop_first d (record q { items = d })).1
unfolding pop_first IsDistinct
pop_first-IsValid [] q v = v
pop_first-IsValid ((k, m) ∷ d) q v = record {
  within = omega (arith, v.within);
  distinct = v.distinct.1;
  numbered = v.numbered.1;
  awake = λ h. v.awake refl;
}

-- Reading keeps the queue valid, whether or not a frame is there.
pub get_nowait-IsValid : (q : CoalescingQueue) → IsValid q → IsValid (get_nowait q).1
unfolding get_nowait
get_nowait-IsValid q v = pop_first-IsValid q.items q v

get_round-IsValid_at :
    (d : Dict FrameKey String) (q : CoalescingQueue)
    → IsValid (record q { items = d })
    → IsValid (get_round (record q { items = d })).1
unfolding get_round
get_round-IsValid_at [] q v = ground (arith, v.within, v.distinct, v.numbered)
get_round-IsValid_at (e ∷ d) q v = pop_first-IsValid (e ∷ d) q v

-- A round of `get` keeps the queue valid: it clears the event only when nothing is pending.
pub get_round-IsValid : (q : CoalescingQueue) → IsValid q → IsValid (get_round q).1
get_round-IsValid q v = get_round-IsValid_at q.items q v
