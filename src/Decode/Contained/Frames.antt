-- ===== src/Decode/Contained/Frames.antt =====
-- Writes inside of a struct, and what they leave as it was.
use get_together.Common.{
  ℕ, ◌≡◌, ◌≢◌, refl, ◌∙◌, false, Option, none, some, inl, inr, ◌==◌, if◌then◌else◌, Bool-cases,
  arith,
}
use get_together.Memory.{Memory}
use get_together.Iter.{FieldIter}
use get_together.Decode.Fields.{put, store, clear}
use get_together.Decode.Fields.Within.{Frame, put-other, store-Outside, clear-Outside}
use get_together.Decode.Contained.{Inside, Outside-Inside}

-- A result that is there, and is `mem` outside of the `n` bytes at `dest`.
unfoldable pub Contained : Memory → ℕ → ℕ → Option Memory → Type 0
Contained mem dest n none = ⊥
Contained mem dest n (some mem') = Frame mem dest n mem'

pub Frame-trans :
    (mem mem' mem'' : Memory) (dest n : ℕ)
    → Frame mem dest n mem'
    → Frame mem' dest n mem''
    → Frame mem dest n mem''
Frame-trans mem mem' mem'' dest n h g x o = g x o ∙ h x o

pub store-Frame :
    (mem : Memory) (dest n a m v : ℕ) → Inside dest n a m → Frame mem dest n (store mem a m v)
store-Frame mem dest n a m v h x o = store-Outside mem a m v x (Outside-Inside dest n a m x h o)

pub put-Frame : (mem : Memory) (dest n a b : ℕ) → Inside dest n a 1 → Frame mem dest n (put mem a b)
put-Frame mem dest n a b h x o = put-other mem a b x (λ e. ground (arith, h.0, h.1))

pub clear-Frame :
    (mem : Memory) (dest n a m : ℕ) → Inside dest n a m → Frame mem dest n (clear mem a m)
clear-Frame mem dest n a m h x o = clear-Outside mem a m x (Outside-Inside dest n a m x h o)

-- The write to a `has_` field, if the field has one.
pub marked-Frame :
    (it : FieldIter) (mem : Memory) (b dest n : ℕ)
    → (it.p_size ≢ it.p_data → Inside dest n it.p_size 1)
    → Frame mem dest n (if it.p_size == it.p_data then mem else put mem it.p_size b)
marked-Frame it mem b dest n h = elim (Bool-cases (it.p_size == it.p_data)) [
  | inl e ↦ rw e (λ x o. refl)
  | inr e ↦ rw e (put-Frame mem dest n it.p_size b (h (differ e)))
]
  where
    differ : (it.p_size == it.p_data) ≡ false → it.p_size ≢ it.p_data
    differ e eq = ground arith

pub Contained-part :
    (mem mem' : Memory) (dest n a m : ℕ) (r : Option Memory)
    → Inside dest n a m
    → Frame mem dest n mem'
    → Contained mem' a m r
    → Contained mem dest n r
unfolding Contained
Contained-part mem mem' dest n a m none h same g = g
Contained-part mem mem' dest n a m (some mem'') h same g =
    λ x o. g x (Outside-Inside dest n a m x h o) ∙ same x o
