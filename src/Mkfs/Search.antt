-- ===== src/Mkfs/Search.antt =====
-- The search of `alloc_from_bitmap` for a group with a free run: cmfs-tools/mkfs.cmfs/mkfs.c.
use cmfs.Prelude.{
  ℕ, zero, suc, ◌+◌, ◌-◌, ◌%◌, ◌^◌, ◌<◌, ◌≤◌, true, false, not, ◌≡◌, ◌≢◌, ◌⊎◌, refl, sym, ap, ◌∙◌,
  inl, inr, arith, Option, none, some, List, [], ◌∷◌, leb, ◌==◌, if◌then◌else◌, Bool-cases, length,
  get_elem?,
}
use cmfs.Prelude.Fault.{some_inj}
use cmfs.Bitops.Find.{bit_at}
use cmfs.Mkfs.{no_bit, GroupDesc, AllocGroup, chain_walk, is_found, find_group}
use cmfs.Mkfs.Runs.{find_clear_bits-IsFirstRun}
use cmfs.Mkfs.Groups.{IsGroup}

-- The links of a chain lead to later groups.
abbrev pub Leads : ℕ → ℕ → Option ℕ → Type 0
Leads n i none = Unit {0}
Leads n i (some k) = (i < k) × (k < n)

-- Every group counts its bits, links to a later one and names a chain that there is.
pub record AreGroups (groups : List AllocGroup) : Type 0 where
  pub are : (i : ℕ) (g : AllocGroup) → get_elem? groups i ≡ some g → IsGroup g.gd
  pub linked :
      (i : ℕ) (g : AllocGroup) → get_elem? groups i ≡ some g → Leads (length groups) i g.next
  pub chained :
      (i : ℕ) (g : AllocGroup) → get_elem? groups i ≡ some g → g.gd.bg_chain < length groups

-- A run of free bits of a group.
pub record IsFreeRun (gd : GroupDesc) (bits b : ℕ) : Type 0 where
  pub inside : b + bits ≤ gd.bg_bits
  pub free : (j : ℕ) → j < bits → bit_at gd.bg_bitmap (b + j) ≡ false
  pub counted : bits ≤ gd.bg_free_bits_count

pub get_elem?-inside :
    {A : Type 0} (xs : List A) (i : ℕ) → i < length xs → (x : A) × (get_elem? xs i ≡ some x)
get_elem?-inside [] i lt = absurd (omega arith)
get_elem?-inside (x ∷ xs) zero lt = (x, refl)
get_elem?-inside (x ∷ xs) (suc i) lt = get_elem?-inside xs i (omega arith)

module _ (groups : List AllocGroup) (is : AreGroups groups) (bits : ℕ) (some_bits : 0 < bits) where
  -- What was found: a group whose search failed, or one with a run that is free.
  abbrev Hit : Option (ℕ × ℕ) → Type 0
  Hit none = Unit {0}
  Hit (some (i, b)) =
      (g : AllocGroup) × (get_elem? groups i ≡ some g)
      × ((b ≡ no_bit) ⊎ ((b ≢ no_bit) × IsFreeRun g.gd bits b))

  abbrev Walked : Option (Option (ℕ × ℕ)) → Type 0
  Walked r = (found : Option (ℕ × ℕ)) × (r ≡ some found) × Hit found

  -- The rest of a chain is shorter than the fuel.
  abbrev Enough : ℕ → Option ℕ → Type 0
  Enough fuel none = 0 < fuel
  Enough fuel (some i) = (i < length groups) × (length groups - i < fuel)

  goes_on :
      (fuel i : ℕ) (next : Option ℕ)
      → i < length groups
      → length groups - i < suc fuel
      → Leads (length groups) i next
      → Enough fuel next
  goes_on fuel i none lt enough leads = omega arith
  goes_on fuel i (some k) lt enough (later, inside) = (inside, omega arith)

  chain_walk-Walked :
      (fuel : ℕ) (place : Option ℕ) → Enough fuel place → Walked (chain_walk fuel groups bits place)
  unfolding chain_walk
  chain_walk-Walked zero none enough = absurd (omega arith)
  chain_walk-Walked zero (some i) enough = absurd (omega (arith, enough))
  chain_walk-Walked (suc fuel) none enough = (none, refl, tt)
  chain_walk-Walked (suc fuel) (some i) enough =
      let (lt, short) = enough in
      let (g, e) = get_elem?-inside groups i lt in
      let group = is.are i g e in
      elim (Bool-cases (leb bits g.gd.bg_free_bits_count)) [
        | inl some_free ↦
            let few : bits % 2 ^ 32 ≡ bits = ground (arith, group.counted, group.small) in
            let (b, found, run) =
              find_clear_bits-IsFirstRun g.gd.bg_bitmap g.gd.bg_bits bits 0 group.bytes group.fits
                (omega (arith, group.small)) some_bits (ground (arith, group.counted, group.small))
                (omega arith) in
            (
              some (i, b),
              rw (e, some_free, few, found) refl,
              (
                g,
                e,
                elim run [
                  | inl (missing, _) ↦ inl missing
                  | inr (_, fit, free, _) ↦ inr (
                    λ (h : b ≡ no_bit). absurd (omega (arith, group.small)),
                    record { inside = fit; free = free; counted = ground arith },
                  )
                ],
              ),
            )
        | inr full ↦
            let (found, r, hit) =
              chain_walk-Walked fuel g.next (goes_on fuel i g.next lt short (is.linked i g e)) in
            (found, rw (e, full) r, hit)
      ]

  -- What the search over the chains ends with: nothing, or a free run.
  abbrev pub Chosen : Option (ℕ × ℕ) → Type 0
  Chosen none = Unit {0}
  Chosen (some (i, b)) = (g : AllocGroup) × (get_elem? groups i ≡ some g) × IsFreeRun g.gd bits b

  abbrev pub Searched : Option (Option (ℕ × ℕ)) → Type 0
  Searched r = (found : Option (ℕ × ℕ)) × (r ≡ some found) × Chosen found

  chosen :
      (found : Option (ℕ × ℕ)) (rest : Option (Option (ℕ × ℕ)))
      → Hit found
      → Searched rest
      → Searched (if is_found found then some found else rest)
  chosen none rest hit others = others
  chosen (some (i, b)) rest (g, e, inl missing) others =
      let n : not (b == no_bit) ≡ false = ground arith in rw n others
  chosen (some (i, b)) rest (g, e, inr (there, run)) others =
      let y : not (b == no_bit) ≡ true = ground arith in rw y (some (i, b), refl, (g, e, run))

  pub find_group-Searched :
      (n i : ℕ) → i + n ≤ length groups → Searched (find_group n groups bits i)
  unfolding find_group
  find_group-Searched zero i inside = (none, refl, tt)
  find_group-Searched (suc n) i inside =
      let (found, r, hit) =
        chain_walk-Walked (suc (length groups)) (some i) (omega arith, omega arith) in
      rw r (
        chosen found (find_group n groups bits (i + 1)) hit
          (find_group-Searched n (i + 1) (omega arith)))

  -- The head of a chain that has a free run is found.
  chain_walk-head :
      (fuel i b : ℕ) (g : AllocGroup)
      → get_elem? groups i ≡ some g
      → IsFreeRun g.gd bits b
      → (start : ℕ) × (chain_walk (suc fuel) groups bits (some i) ≡ some (some (i, start)))
        × (start ≢ no_bit)
  unfolding chain_walk
  chain_walk-head fuel i b g e run =
      let group = is.are i g e in
      let some_free : leb bits g.gd.bg_free_bits_count ≡ true = ground (arith, run.counted) in
      let (start, found, first) =
        find_clear_bits-IsFirstRun g.gd.bg_bitmap g.gd.bg_bits bits 0 group.bytes group.fits
          (omega (arith, group.small)) some_bits (omega (arith, run.inside, group.small))
          (omega arith) in
      let few : bits % 2 ^ 32 ≡ bits = omega (arith, run.inside, group.small) in
      (
        start,
        rw (e, some_free, few, found) refl,
        elim first [
          | inl (missing, blocked) ↦
              let (j, lt, hit) = blocked b (omega arith) run.inside in
              let clash : false ≡ true = sym (run.free j lt) ∙ hit in absurd cc
          | inr (_, fit, _, _) ↦ λ (h : start ≡ no_bit). absurd (omega (arith, group.small))
        ],
      )

  none_found :
      (found : Option (ℕ × ℕ)) (rest : Option (Option (ℕ × ℕ)))
      → (if is_found found then some found else rest) ≡ some none
      → (is_found found ≡ false) × (rest ≡ some none)
  none_found none rest e = (refl, e)
  none_found (some (i, start)) rest e = elim (Bool-cases (start == no_bit)) [
    | inl missing ↦ let m : not (start == no_bit) ≡ false = ground arith in (m, rw m at e)
    | inr there ↦
        let t : not (start == no_bit) ≡ true = ground arith in
        let h : some (some (i, start)) ≡ some none = rw t at e in absurd cc
  ]

  -- Where nothing is found, no head of a chain has a free run.
  pub find_group-none :
      (n i k b : ℕ) (g : AllocGroup)
      → i + n ≤ length groups
      → i ≤ k
      → k < i + n
      → get_elem? groups k ≡ some g
      → IsFreeRun g.gd bits b
      → find_group n groups bits i ≢ some none
  unfolding find_group
  find_group-none zero i k b g inside lo hi at_place run h = absurd (omega arith)
  find_group-none (suc n) i k b g inside lo hi at_place run h =
      let (found, r, hit) =
        chain_walk-Walked (suc (length groups)) (some i) (omega arith, omega arith) in
      let h' : (if is_found found then some found else find_group n groups bits (i + 1))
          ≡ some none =
        rw r at h in
      let (missing, others) = none_found found (find_group n groups bits (i + 1)) h' in
      elim (Bool-cases (k == i)) [
        | inl same ↦
            let z : k ≡ i = ground arith in
            let (start, walked, there) =
              chain_walk-head (length groups) i b g (ap (get_elem? groups) (sym z) ∙ at_place)
                run in
            let f : found ≡ some (i, start) = some_inj (sym r ∙ walked) in
            let t : is_found (some (i, start)) ≡ false = ap is_found (sym f) ∙ missing in
            there (ground arith)
        | inr other ↦
            find_group-none n (i + 1) k b g (omega arith) (ground arith) (omega arith) at_place run
              others
      ]
