-- ===== src/OStream/Uniform.antt =====
-- Actions that write fixed bytes, or fail, whatever the stream.
use mathlib.Core.Path.{fun_ext}
use native.Mathlib.Nat.{add-zero}
use get_together.Common.{
  ℕ, ◌+◌, ◌%◌, ◌<◌, ap, ◌≡◌, refl, sym, Bool, true, false, List, [], ◌++◌, if◌then◌else◌,
  append-nil, arith,
}
use get_together.Pb.{Message, returns, ◌>>=◌, size_mod}
use get_together.OStream.{OStream, return_error}
use get_together.OStream.Emits.{
  Action, Ends, Fails, Emits, Fails-bind_left, Fails-bind_right, Emits-bind,
}

-- Such an action either writes the same bytes to every stream that takes them, or returns false on
-- every stream.
pub data Uniform (act : Action) : Type 0 where
  emits : (bs : List ℕ) → Emits act bs → Uniform act
  fails : Fails act → Uniform act

pub Emits-cong :
    (act act' : Action) (bs : List ℕ)
    → ((s : OStream) → act s ≡ act' s)
    → Emits act' bs
    → Emits act bs
Emits-cong act act' bs h e = rw (fun_ext h) e

pub Uniform-cong :
    (act act' : Action) → ((s : OStream) → act s ≡ act' s) → Uniform act' → Uniform act
Uniform-cong act act' h e = rw (fun_ext h) e

pub Uniform-Ends : (act : Action) → Uniform act → Ends act
Uniform-Ends act (emits bs e) = e.ends
Uniform-Ends act (fails f) = record { at = λ s. let (s', e) = f.at s in (false, s', e) }

pub Uniform-bind : (act act' : Action) → Uniform act → Uniform act' → Uniform (λ s. act s >>= act')
Uniform-bind act act' (emits bs e) (emits cs e') = emits (bs ++ cs) (Emits-bind act act' bs cs e e')
Uniform-bind act act' (emits bs e) (fails f) = fails (Fails-bind_right act act' e.ends f)
Uniform-bind act act' (fails f) u = fails (Fails-bind_left act act' f)

mod_small : (n : ℕ) → n < size_mod → n ≡ (n + 0) % size_mod
mod_small n h = omega arith

-- Success with nothing written.
pub Emits-returns : Emits (λ s. returns true s) []
Emits-returns = record {
  ends = record { at = λ s. (true, s, refl) };
  sizing = λ s h m.
      ap (λ (t : ℕ). returns true (record s { bytes_written = t })) (mod_small s.bytes_written m);
  fits = λ s h m k r.
      ap (λ (p : List ℕ × ℕ). returns true (record s { state = p.0; bytes_written = p.1 }))
        (λ i. (sym (append-nil s.state) i, sym (add-zero s.bytes_written) i));
  full = λ s h m k r t. absurd (omega arith);
}

pub Uniform-returns : Uniform (λ s. returns true s)
Uniform-returns = emits [] Emits-returns

pub Uniform-error : (msg : Message) → Uniform (λ s. return_error s msg)
unfolding return_error
Uniform-error msg = fails (record { at = λ s. (_, refl) })

pub Uniform-if :
    (b : Bool) (act act' : Action)
    → (b ≡ true → Uniform act)
    → (b ≡ false → Uniform act')
    → Uniform (λ s. if b then act s else act' s)
Uniform-if true act act' h h' = h refl
Uniform-if false act act' h h' = h' refl
