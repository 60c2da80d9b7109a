-- ===== src/Mkfs/Uuid.antt =====
-- `translate_uuid` of cmfs-tools/mkfs.cmfs/mkfs.c, for a UUID of 32 digits on the command line.
use cmfs.Prelude.{
  ℕ, zero, suc, ◌+◌, ◌<◌, ◌≤◌, Bool, true, false, ◌&&◌, ◌||◌, ◌≡◌, ◌⊎◌, refl, sym, ap, ◌∙◌, inl,
  inr, arith, Option, none, some, List, ltb, leb, ◌==◌, if◌then◌else◌, Bool-cases, length,
  get_elem?, set, get_or, length-set,
}
use cmfs.Prelude.Fault.{◌>>=◌, some_inj, >>=-eq-some}
use cmfs.Bitops.Update.{get_or-set}
use cmfs.Mkfs.Search.{get_elem?-inside}

abbrev pub is_dash : ℕ → Bool
is_dash i = i == 8 || i == 13 || i == 18 || i == 23

-- A byte is written to a buffer, or behind its end.
abbrev pub put : List ℕ → ℕ → ℕ → Option (List ℕ)
put buf i c = if ltb i (length buf) then some (set buf i c) else none

-- A round: `cp` as a place in `uuid_32`, and the two buffers.
abbrev pub translate_step : ℕ → ℕ → List ℕ → List ℕ → Option (ℕ × List ℕ × List ℕ)
translate_step i cp uuid_32 uuid_36 =
    if is_dash i
    then (put uuid_36 i 45 >>= λ uuid_36'. some (cp, uuid_32, uuid_36'))
    else (get_elem? uuid_32 cp >>= λ c.
        put uuid_32 i c >>= λ uuid_32'. some (cp + 1, uuid_32', uuid_36))

unfoldable pub translate_loop : ℕ → ℕ → ℕ → List ℕ → List ℕ → Option (List ℕ × List ℕ)
translate_loop zero i cp uuid_32 uuid_36 = some (uuid_32, uuid_36)
translate_loop (suc n) i cp uuid_32 uuid_36 =
    translate_step i cp uuid_32 uuid_36 >>= λ (cp', uuid_32', uuid_36').
    translate_loop n (i + 1) cp' uuid_32' uuid_36'

-- The two buffers after the call.
unfoldable pub translate_uuid : List ℕ → List ℕ → Option (List ℕ × List ℕ)
unfolding translate_loop
translate_uuid uuid_32 uuid_36 = translate_loop 36 0 0 uuid_32 uuid_36

-- The dashes from place `i` on are set, and no other byte is changed.
record IsDashed (i : ℕ) (uuid_36 uuid_36' : List ℕ) : Type 0 where
  pub same_length : length uuid_36' ≡ length uuid_36
  pub reads :
      (k : ℕ) → get_or uuid_36' k 0 ≡ (if leb i k && is_dash k then 45 else get_or uuid_36 k 0)

put-eq_some :
    (buf buf' : List ℕ) (i c : ℕ)
    → put buf i c ≡ some buf'
    → (i < length buf) × (buf' ≡ set buf i c)
put-eq_some buf buf' i c e = elim (Bool-cases (ltb i (length buf))) [
  | inl within ↦
      let there : put buf i c ≡ some (set buf i c) = rw within refl in
      (ground arith, some_inj (sym e ∙ there))
  | inr beyond ↦
      let nowhere : put buf i c ≡ none = rw beyond refl in
      let clash : none ≡ some buf' = sym nowhere ∙ e in absurd cc
]

-- A round that is none of a dash writes to `uuid_32`, and no round changes its length.
step_inside :
    (i cp : ℕ) (uuid_32 uuid_36 : List ℕ) (r : ℕ × List ℕ × List ℕ)
    → translate_step i cp uuid_32 uuid_36 ≡ some r
    → (length r.1 ≡ length uuid_32) × (is_dash i ≡ false → i < length uuid_32)
step_inside i cp uuid_32 uuid_36 r e = elim (Bool-cases (is_dash i)) [
  | inl dash ↦
      let h : (put uuid_36 i 45 >>= λ u. some (cp, uuid_32, u)) ≡ some r = rw dash at e in
      let (u, _, same) = >>=-eq-some (put uuid_36 i 45) (λ u. some (cp, uuid_32, u)) h in
      (ap (λ (t : ℕ × List ℕ × List ℕ). length t.1) (sym (some_inj same)), λ none_of. absurd cc)
  | inr digit ↦
      let h : (get_elem? uuid_32 cp >>= λ c. put uuid_32 i c >>= λ u. some (cp + 1, u, uuid_36))
          ≡ some r =
        rw digit at e in
      let (c, _, h') =
        >>=-eq-some (get_elem? uuid_32 cp) (λ c. put uuid_32 i c >>= λ u. some (cp + 1, u, uuid_36))
          h in
      let (u, wrote, same) = >>=-eq-some (put uuid_32 i c) (λ u. some (cp + 1, u, uuid_36)) h' in
      let (inside, is_set) = put-eq_some uuid_32 u i c wrote in
      (
        ap (λ (t : ℕ × List ℕ × List ℕ). length t.1) (sym (some_inj same))
            ∙ ap (λ (t : List ℕ). length t) is_set
            ∙ length-set uuid_32 i c,
        λ none_of. inside,
      )
]

none_or_some : {A : Type 0} (m : Option A) → (m ≡ none) ⊎ ((a : A) × (m ≡ some a))
none_or_some none = inl refl
none_or_some (some a) = inr (a, refl)

overruns :
    (n i cp : ℕ) (uuid_32 uuid_36 : List ℕ)
    → i + suc n ≡ 36
    → length uuid_32 < 36
    → translate_loop (suc n) i cp uuid_32 uuid_36 ≡ none
unfolding translate_loop
overruns zero i cp uuid_32 uuid_36 at_end short =
    elim (none_or_some (translate_step i cp uuid_32 uuid_36)) [
      | inl stops ↦ rw stops refl
      | inr (r, e) ↦
          let digit : is_dash i ≡ false = ground arith in
          absurd (omega (arith, (step_inside i cp uuid_32 uuid_36 r e).1 digit))
    ]
overruns (suc n) i cp uuid_32 uuid_36 at_end short =
    elim (none_or_some (translate_step i cp uuid_32 uuid_36)) [
      | inl stops ↦ rw stops refl
      | inr (r, e) ↦
          let same = (step_inside i cp uuid_32 uuid_36 r e).0 in
          rw e (overruns n (i + 1) r.0 r.1 r.2 (omega arith) (omega arith))
    ]

no_dash :
    (i k c : ℕ)
    → is_dash i ≡ false
    → (if leb (i + 1) k && is_dash k then 45 else c) ≡ (if leb i k && is_dash k then 45 else c)
no_dash i k c digit = elim (Bool-cases (k == i)) [
  | inl same ↦
      let z : k ≡ i = ground arith in
      let none_of : is_dash k ≡ false = ap is_dash z ∙ digit in
      let l : (leb (i + 1) k && is_dash k) ≡ false = ground arith in
      let r : (leb i k && is_dash k) ≡ false = ground arith in rw (l, r) refl
  | inr other ↦ let e : leb (i + 1) k ≡ leb i k = ground arith in rw e refl
]

set_dash :
    (i k : ℕ) (buf : List ℕ)
    → is_dash i ≡ true
    → i < length buf
    → (if leb (i + 1) k && is_dash k then 45 else get_or (set buf i 45) k 0)
      ≡ (if leb i k && is_dash k then 45 else get_or buf k 0)
set_dash i k buf dash lt = elim (Bool-cases (k == i)) [
  | inl same ↦
      let z : k ≡ i = ground arith in
      let one_of : is_dash k ≡ true = ap is_dash z ∙ dash in
      let l : (leb (i + 1) k && is_dash k) ≡ false = ground arith in
      let r : (leb i k && is_dash k) ≡ true = ground arith in
      rw (l, r) (get_or-set buf i k 45 lt ∙ rw same refl)
  | inr other ↦
      let e : leb (i + 1) k ≡ leb i k = ground arith in
      let kept : get_or (set buf i 45) k 0 ≡ get_or buf k 0 =
        get_or-set buf i k 45 lt ∙ rw other refl in
      rw (e, kept) refl
]

-- From place `i` on, with room for all 36 bytes.
fills :
    (n i cp : ℕ) (uuid_32 uuid_36 : List ℕ)
    → i + n ≡ 36
    → cp ≤ i
    → 36 ≤ length uuid_32
    → 36 ≤ length uuid_36
    → (r : List ℕ × List ℕ) × (translate_loop n i cp uuid_32 uuid_36 ≡ some r)
      × IsDashed i uuid_36 r.1
unfolding translate_loop
fills zero i cp uuid_32 uuid_36 at_end le room room' = (
  (uuid_32, uuid_36),
  refl,
  record {
    same_length = refl;
    reads = λ k. let past : (leb i k && is_dash k) ≡ false = ground arith in rw past refl;
  },
)
fills (suc n) i cp uuid_32 uuid_36 at_end le room room' = elim (Bool-cases (is_dash i)) [
  | inl dash ↦
      let here : ltb i (length uuid_36) ≡ true = ground arith in
      let marked : List ℕ = set uuid_36 i 45 in
      let len : length marked ≡ length uuid_36 = length-set uuid_36 i 45 in
      let (r, e, is) =
        fills n (i + 1) cp uuid_32 marked (omega arith) (omega arith) room (omega arith) in
      (
        r,
        rw (dash, here) e,
        record {
          same_length = is.same_length ∙ len;
          reads = λ k. is.reads k ∙ set_dash i k uuid_36 dash (omega arith);
        },
      )
  | inr digit ↦
      let (c, there) = get_elem?-inside uuid_32 cp (omega arith) in
      let here : ltb i (length uuid_32) ≡ true = ground arith in
      let len = length-set uuid_32 i c in
      let (r, e, is) =
        fills n (i + 1) (cp + 1) (set uuid_32 i c) uuid_36 (omega arith) (omega arith) (omega arith)
          room' in
      (
        r,
        rw (digit, there, here) e,
        record {
          same_length = is.same_length;
          reads = λ k. is.reads k ∙ no_dash i k (get_or uuid_36 k 0) digit;
        },
      )
]

-- With a `uuid_36` of 36 bytes or more: where `uuid_32` has less than 36 bytes, as the copy of an
-- argument of 32 digits has, `translate_uuid` writes behind it. Where it has them, the call ends and
-- puts the four dashes into `uuid_36`, but changes no other byte of it, so that no digit arrives.
pub translate_uuid-dashes :
    (uuid_32 uuid_36 : List ℕ)
    → 36 ≤ length uuid_36
    → ((length uuid_32 < 36) × (translate_uuid uuid_32 uuid_36 ≡ none))
      ⊎ ((36 ≤ length uuid_32)
          × ((r : List ℕ × List ℕ) × (translate_uuid uuid_32 uuid_36 ≡ some r)
              × ((k : ℕ) → get_or r.1 k 0 ≡ (if is_dash k then 45 else get_or uuid_36 k 0))))
unfolding translate_uuid
translate_uuid-dashes uuid_32 uuid_36 room = elim (Bool-cases (ltb (length uuid_32) 36)) [
  | inl short ↦ inl (ground arith, overruns 35 0 0 uuid_32 uuid_36 (omega arith) (ground arith))
  | inr long ↦
      let (r, e, is) =
        fills 36 0 0 uuid_32 uuid_36 (omega arith) (omega arith) (ground arith) room in
      inr (
        ground arith,
        (
          r,
          e,
          λ k. let from_start : leb 0 k ≡ true = ground arith in is.reads k ∙ rw from_start refl,
        ),
      )
]
