-- ===== src/Trip/Kept.antt =====
-- A message stays the same when its struct stays as it was.
use native.Mathlib.Nat.{mul-le-mul_left, mul-suc}
use get_together.Common.{
  ℤ, ℕ, zero, suc, false, ◌*◌, ◌+◌, ◌≤◌, ◌<◌, ◌≡◌, refl, ap, ◌∙◌, List, length, get_or, ◌==◌, arith,
}
use get_together.Pb.Field.{LType, bytes, string, submessage, HType, repeated, Field, last_field}
use get_together.Memory.{Memory, load, string_length}
use get_together.Iter.Nth.{nth}
use get_together.Trip.Cells.{SameBytes}
use get_together.Trip.Shape.{
  HasFlag, room, SameArray, IsTyped, IsField, IsFlat, IsPresent, HasValue, HasValues, SameValue,
  SameField, SameMessage, BlankValue, BlankField, IsBlank,
}
use get_together.Decode.Items.{is_repeated}
use get_together.Trip.Places.{
  repeated-HasFlag, room-single, InSlot, InSlot-struct, data-InSlot, flag-InSlot,
}

-- The two memories are the same in the `n` bytes at `a`.
abbrev pub Agree : Memory → Memory → ℕ → ℕ → Type 0
Agree mem mem' a n = (x : ℕ) → a ≤ x → x < a + n → mem' x ≡ mem x

-- As many bytes as count.
Agree-SameBytes :
    (mem mem' mem'' : Memory) (p q n size : ℕ)
    → Agree mem' mem'' q size
    → n ≤ size
    → SameBytes mem p mem' q n
    → SameBytes mem p mem'' q n
Agree-SameBytes mem mem' mem'' p q n size same le h i lt =
    same (q + i) (omega arith) (omega arith) ∙ h i lt

pub Agree-load : (mem mem' : Memory) (a n : ℕ) → Agree mem mem' a n → load mem' a n ≡ load mem a n
unfolding load
Agree-load mem mem' a zero same = refl
Agree-load mem mem' a (suc n) same = omega (
  arith,
  same a (omega arith) (omega arith),
  Agree-load mem mem' (a + 1) n (λ x from to. same x (omega arith) (omega arith)),
)

-- An entry is within its array.
pub entry_fits : (size i count : ℕ) → i < count → size * i + size ≤ size * count
entry_fits size i count lt = omega (arith, mul-le-mul_left size lt, mul-suc size i)

pub IsPresent-single :
    (mem : Memory) (t : HType) (o : ℤ) (p_size : ℕ)
    → IsPresent mem t o p_size
    → is_repeated t ≡ false
unfolding IsPresent
IsPresent-single mem repeated o p_size h = absurd h
IsPresent-single mem _ o p_size h = refl

module _ (field : Field) (mem : Memory) (p : ℕ) (mem' mem'' : Memory) (q : ℕ)
    (same : Agree mem' mem'' q field.data_size) where
  Agree-SameValue :
      (inner : ℕ → ℕ → Type 0) (has : ℕ → ℕ → Type 0) (one two : ℕ → ℕ → ℕ → Type 0) (t : LType)
      → (inner field.ptr field.data_size → has field.ptr p → one field.ptr p q → two field.ptr p q)
      → IsTyped inner t field
      → HasValue has t mem field p
      → SameValue one t field mem p mem' q
      → SameValue two t field mem p mem'' q
  unfolding SameValue IsTyped HasValue
  Agree-SameValue inner has one two bytes sub typed fits h =
      Agree-SameBytes mem mem' mem'' p q (4 + load mem p 4) field.data_size same (omega arith) h
  Agree-SameValue inner has one two string sub typed fits h =
      Agree-SameBytes mem mem' mem'' p q (string_length mem p field.data_size + 1) field.data_size
        same (omega arith) h
  Agree-SameValue inner has one two submessage sub (some_ptr, typed) fits h = sub typed fits h
  Agree-SameValue inner has one two _ sub typed fits h =
      Agree-SameBytes mem mem' mem'' p q field.data_size field.data_size same (omega arith) h

pub Agree-BlankValue :
    (inner : ℕ → ℕ → Type 0) (one two : ℕ → ℕ → Type 0) (t : LType) (field : Field) (q : ℕ)
    → (inner field.ptr field.data_size → one field.ptr q → two field.ptr q)
    → IsTyped inner t field
    → BlankValue one t field q
    → BlankValue two t field q
unfolding BlankValue IsTyped
Agree-BlankValue inner one two submessage field q sub (some_ptr, typed) h = sub typed h
Agree-BlankValue inner one two _ field q sub typed h = tt

-- The same memory in the slot of a field.
module _ (inner : ℕ → ℕ → Type 0) (fields : List Field)
    (plain : (k : ℕ) → k < length fields → IsField inner (get_or fields k last_field))
    (mem : Memory) (src : ℕ) (mem' mem'' : Memory) (dest k : ℕ) (lt : k < length fields)
    (same : (x : ℕ) → InSlot inner fields plain dest k x → mem'' x ≡ mem' x) where
  slot-Agree :
      Agree mem' mem''
        (nth fields dest k).p_data
        (room (get_or fields k last_field).htype (get_or fields k last_field))
  slot-Agree x from to = same x (data-InSlot inner fields plain dest k x lt from to)

  single-Agree :
      is_repeated (get_or fields k last_field).htype ≡ false
      → Agree mem' mem'' (nth fields dest k).p_data (get_or fields k last_field).data_size
  single-Agree e x from to =
      slot-Agree x from (
        omega
          (arith, room-single (get_or fields k last_field).htype (get_or fields k last_field) e))

  flag-Agree :
      (n : ℕ)
      → HasFlag n (get_or fields k last_field)
      → Agree mem' mem'' (nth fields dest k).p_size n
  flag-Agree n flag x from to =
      let (at, before) = flag-InSlot inner fields plain dest k n lt flag in same x (at x from to)

  Agree-SameArray :
      (p p_size : ℕ)
      → (get_or fields k last_field).htype ≡ repeated
      → load mem p_size 4 ≤ (get_or fields k last_field).array_size
      → SameArray
          (get_or fields k last_field)
          mem
          p
          p_size
          mem'
          (nth fields dest k).p_data
          (nth fields dest k).p_size
      → SameArray
          (get_or fields k last_field)
          mem
          p
          p_size
          mem''
          (nth fields dest k).p_data
          (nth fields dest k).p_size
  Agree-SameArray p p_size rep le (count, entries) =
      let field = get_or fields k last_field in
      let q = (nth fields dest k).p_data in
      (
        Agree-load mem' mem'' (nth fields dest k).p_size 4
              (flag-Agree 4 (repeated-HasFlag inner fields plain k lt rep))
            ∙ count,
        (λ i small.
            Agree-SameBytes mem mem' mem'' (p + field.data_size * i) (q + field.data_size * i)
              field.data_size field.data_size
              (λ x from to. slot-Agree x (omega arith) (
                omega (
                  arith,
                  entry_fits field.data_size i field.array_size (omega arith),
                  ap (λ t. room t field) rep,
                )))
              (omega arith) (entries i small)),
      )

  pub slot-SameField :
      (has : ℕ → ℕ → Type 0) (one two : ℕ → ℕ → ℕ → Type 0)
      → ((IsPresent mem
              (get_or fields k last_field).htype
              (get_or fields k last_field).size_offset
              (nth fields src k).p_size
            → HasValue has
                (get_or fields k last_field).ltype
                mem
                (get_or fields k last_field)
                (nth fields src k).p_data)
          × ((get_or fields k last_field).htype ≡ repeated
              → load mem (nth fields src k).p_size 4 ≤ (get_or fields k last_field).array_size))
      → ((r p q m : ℕ) → inner r m → has r p → Agree mem' mem'' q m → one r p q → two r p q)
      → SameField one
          (get_or fields k last_field)
          mem
          (nth fields src k).p_data
          (nth fields src k).p_size
          mem'
          (nth fields dest k).p_data
          (nth fields dest k).p_size
      → SameField two
          (get_or fields k last_field)
          mem
          (nth fields src k).p_data
          (nth fields src k).p_size
          mem''
          (nth fields dest k).p_data
          (nth fields dest k).p_size
  slot-SameField has one two values sub h = record {
    has = λ opt flag.
        ap (λ (b : ℕ). b == 0)
          (flag-Agree 1 flag (nth fields dest k).p_size (omega arith) (omega arith))
        ∙ h.has opt flag;
    value = λ there.
        let here = single-Agree (
          IsPresent-single mem (get_or fields k last_field).htype
            (get_or fields k last_field).size_offset (nth fields src k).p_size there) in
        Agree-SameValue (get_or fields k last_field) mem (nth fields src k).p_data mem' mem''
          (nth fields dest k).p_data here inner has one two (get_or fields k last_field).ltype
          (λ flat values.
            sub (get_or fields k last_field).ptr (nth fields src k).p_data
              (nth fields dest k).p_data (get_or fields k last_field).data_size flat values here)
          (plain k lt).typed (values.0 there) (h.value there);
    entries = λ rep.
        Agree-SameArray (nth fields src k).p_data (nth fields src k).p_size rep (values.1 rep)
          (h.entries rep);
  }

  pub slot-BlankField :
      (one two : ℕ → ℕ → Type 0)
      → ((r q m : ℕ) → inner r m → Agree mem' mem'' q m → one r q → two r q)
      → BlankField one
          (get_or fields k last_field)
          mem'
          (nth fields dest k).p_data
          (nth fields dest k).p_size
      → BlankField two
          (get_or fields k last_field)
          mem''
          (nth fields dest k).p_data
          (nth fields dest k).p_size
  slot-BlankField one two sub h = record {
    has = λ opt flag.
        flag-Agree 1 flag (nth fields dest k).p_size (omega arith) (omega arith) ∙ h.has opt flag;
    zeros = λ implicit i small.
        single-Agree (rw implicit.0 refl) ((nth fields dest k).p_data + i) (omega arith)
          (omega arith)
        ∙ h.zeros implicit i small;
    empty = λ rep.
        Agree-load mem' mem'' (nth fields dest k).p_size 4
          (flag-Agree 4 (repeated-HasFlag inner fields plain k lt rep))
        ∙ h.empty rep;
    value = λ single.
        Agree-BlankValue inner one two (get_or fields k last_field).ltype
          (get_or fields k last_field) (nth fields dest k).p_data
          (λ flat.
            sub (get_or fields k last_field).ptr (nth fields dest k).p_data
              (get_or fields k last_field).data_size flat (single-Agree single))
          (plain k lt).typed (h.value single);
  }

-- What is in the struct, of `n` bytes at `dest`, stays.
pub Agree-SameMessage :
    (fields_at : ℕ → List Field) (depth : ℕ) (fields : List Field) (n : ℕ) (mem : Memory) (src : ℕ)
    (mem' mem'' : Memory) (dest : ℕ)
    → IsFlat fields_at depth fields n
    → HasValues fields_at depth mem fields src
    → Agree mem' mem'' dest n
    → SameMessage fields_at depth fields mem src mem' dest
    → SameMessage fields_at depth fields mem src mem'' dest
unfolding IsFlat HasValues SameMessage
Agree-SameMessage fields_at zero fields n mem src mem' mem'' dest flat values same h = absurd flat
Agree-SameMessage fields_at (suc depth) fields n mem src mem' mem'' dest
      (plain, tags, fits, few, odd) values same h =
    λ k lt.
      slot-SameField (λ p m. IsFlat fields_at depth (fields_at p) m) fields plain mem src mem' mem''
        dest k lt
        (λ x at.
          let (from, to) = InSlot-struct _ fields plain dest n k x lt fits at in same x from to)
        (λ q p. HasValues fields_at depth mem (fields_at q) p) _ _ (values k lt)
        (λ r p q m flat values same h.
          Agree-SameMessage fields_at depth (fields_at r) m mem p mem' mem'' q flat values same h)
        (h k lt)

pub Agree-IsBlank :
    (fields_at : ℕ → List Field) (depth : ℕ) (fields : List Field) (n : ℕ) (mem' mem'' : Memory)
    (dest : ℕ)
    → IsFlat fields_at depth fields n
    → Agree mem' mem'' dest n
    → IsBlank fields_at depth fields mem' dest
    → IsBlank fields_at depth fields mem'' dest
unfolding IsFlat IsBlank
Agree-IsBlank fields_at zero fields n mem' mem'' dest flat same h = absurd flat
Agree-IsBlank fields_at (suc depth) fields n mem' mem'' dest (plain, tags, fits, few, odd) same h =
    λ k lt.
      slot-BlankField (λ p m. IsFlat fields_at depth (fields_at p) m) fields plain mem' dest mem'
        mem'' dest k lt
        (λ x at.
          let (from, to) = InSlot-struct _ fields plain dest n k x lt fits at in same x from to)
        _ _
        (λ r q m flat same h.
          Agree-IsBlank fields_at depth (fields_at r) m mem' mem'' q flat same h)
        (h k lt)
