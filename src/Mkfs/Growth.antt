-- ===== src/Mkfs/Growth.antt =====
-- The loop of `initialize_bitmap` over the groups: cmfs-tools/mkfs.cmfs/mkfs.c.
use cmfs.Prelude.{
  inl, inr, Bool-cases, ℕ, zero, suc, ◌+◌, ◌-◌, ◌%◌, ◌^◌, ◌<◌, ◌≤◌, Bool, true, false, ◌||◌, ◌≡◌,
  refl, sym, ◌∙◌, arith, Option, none, some, List, [], ◌∷◌, ◌++◌, leb, ◌==◌, if◌then◌else◌, length,
  set, length-append, length-set,
}
use mathlib.Core.Path.{subst}
use cmfs.Mkfs.{GroupDesc, BitInfo, AllocGroup}
use cmfs.Bitops.Find.{bit_at}
use cmfs.Mkfs.Groups.{IsGroup}
use cmfs.Mkfs.Search.{Leads, get_elem?-inside}
use cmfs.Mkfs.Sizes.{State}
use cmfs.Mkfs.Setup.{Building, linked, totalled, build_group, build_groups}
use cmfs.Mkfs.Built.{Each, set-Each, append-Each, IsNew, initialize_alloc_group-IsNew}

-- A new group of `least` bits or more: only the bit of its descriptor is taken.
pub record IsUntouched (least : ℕ) (gd : GroupDesc) : Type 0 where
  pub free : (j : ℕ) → 0 < j → bit_at gd.bg_bitmap j ≡ false
  pub one_taken : gd.bg_free_bits_count + 1 ≡ gd.bg_bits
  pub wide : least ≤ gd.bg_bits

-- The group at place `k` of `n` groups.
pub record IsPlaced (stride least n k : ℕ) (g : AllocGroup) : Type 0 where
  pub group : IsGroup g.gd
  pub leads : Leads n k g.next
  pub chained : g.gd.bg_chain < n
  pub at_blkno : 0 < k → g.gd.bg_blkno ≡ stride
  pub untouched : 0 < k → IsUntouched least g.gd

Leads-later : (n k : ℕ) (o : Option ℕ) → Leads n k o → Leads (suc n) k o
Leads-later n k none leads = tt
Leads-later n k (some i) (later, inside) = (later, omega arith)

later :
    (stride least n : ℕ) (groups : List AllocGroup)
    → Each (IsPlaced stride least n) groups
    → Each (IsPlaced stride least (suc n)) groups
later stride least n groups each k g e =
    let p = each k g e in
    record {
      group = p.group;
      leads = Leads-later n k g.next p.leads;
      chained = omega (arith, p.chained);
      at_blkno = p.at_blkno;
      untouched = p.untouched;
    }

module _ (stride least i : ℕ) (groups : List AllocGroup) (len : length groups ≡ suc i)
    (each : Each (IsPlaced stride least (suc i)) groups) where
  -- Groups that another list of groups may be taken for.
  abbrev Steps : Option (List AllocGroup) → Type 0
  Steps r =
      (groups' : List AllocGroup) × (r ≡ some groups')
      × (length groups' ≡ suc i)
      × Each (IsPlaced stride least (suc i)) groups'

  linked-Steps :
      (wrapped : Bool) → (wrapped ≡ true → 245 ≤ i) → Steps (linked wrapped i 245 stride groups)
  linked-Steps false far = (groups, refl, len, each)
  linked-Steps true far =
      let some_back = far refl in
      let (g, e) = get_elem?-inside groups (i - 245) (omega arith) in
      let p = each (i - 245) g e in
      let g' : AllocGroup = record g {
        gd = record g.gd { bg_next_group = stride };
        next = some i;
      } in
      (
        set groups (i - 245) g',
        rw e refl,
        length-set groups (i - 245) g' ∙ len,
        set-Each (IsPlaced stride least (suc i)) groups (i - 245) g' each (omega arith) (record {
          group = record {
            bytes = p.group.bytes;
            fits = p.group.fits;
            small = p.group.small;
            counted = p.group.counted;
          };
          leads = (omega arith, omega arith);
          chained = p.chained;
          at_blkno = p.at_blkno;
          untouched = λ pos. record {
            free = (p.untouched pos).free;
            one_taken = (p.untouched pos).one_taken;
            wide = (p.untouched pos).wide;
          };
        }),
      )

  totalled-Steps : (chain : ℕ) (new : AllocGroup) → chain ≤ i → Steps (totalled chain new groups)
  totalled-Steps chain new le =
      let (head, e) = get_elem?-inside groups chain (omega arith) in
      let p = each chain head e in
      let head' : AllocGroup = record head {
        chain_total = (head.chain_total + new.gd.bg_bits) % 2 ^ 32;
        chain_free = new.gd.bg_free_bits_count;
      } in
      (
        set groups chain head',
        rw e refl,
        length-set groups chain head' ∙ len,
        set-Each (IsPlaced stride least (suc i)) groups chain head' each (omega arith) (record {
          group = p.group;
          leads = p.leads;
          chained = p.chained;
          at_blkno = p.at_blkno;
          untouched = p.untouched;
        }),
      )

module _ (s : State) (stride : ℕ) (size : s.blocksize ≡ 4096) (few : s.global_cpg ≤ 32256)
    (some_tail : 0 < s.tail_group_bits) (tail_fits : s.tail_group_bits ≤ s.global_cpg)
    (clusters : s.volume_size_in_clusters < 2 ^ 32) where
  -- The bits of the last `n` groups.
  abbrev pub rest : ℕ → ℕ
  rest zero = 0
  rest (suc zero) = s.tail_group_bits
  rest (suc (suc n)) = s.global_cpg + rest (suc n)

  -- The loop has `i` groups and `n` groups to go.
  pub record IsBuilding (i n : ℕ) (b : Building) : Type 0 where
    pub len : length b.groups ≡ i
    pub each : Each (IsPlaced stride s.tail_group_bits i) b.groups
    pub chain_in : b.chain ≤ i
    pub chain_few : b.chain < 245
    pub wrapped : b.wrapped ≡ true → 245 ≤ i
    pub total : b.bi.total_bits + rest n ≡ s.volume_size_in_clusters
    pub cpg : 0 < n → b.cpg ≡ s.global_cpg

  abbrev bits_of : ℕ → Building → ℕ
  bits_of i b = if i == s.nr_cluster_groups - 1 then s.tail_group_bits else b.cpg

  -- The bits of the next group.
  next_bits :
      (i n : ℕ) (b : Building)
      → i + suc n ≡ s.nr_cluster_groups
      → b.cpg ≡ s.global_cpg
      → (rest (suc n) ≡ bits_of i b + rest n)
        × (0 < bits_of i b)
        × (bits_of i b ≤ 32256)
        × (0 < n → bits_of i b ≡ s.global_cpg)
  next_bits i zero b at_end cpg =
      let last : (i == s.nr_cluster_groups - 1) ≡ true = ground arith in
      rw last (omega arith, some_tail, omega arith, λ pos. absurd (omega arith))
  next_bits i (suc n) b at_end cpg =
      let more : (i == s.nr_cluster_groups - 1) ≡ false = ground arith in
      rw (more, cpg) (refl, omega arith, few, λ pos. refl)

  wide_bits : (i : ℕ) (b : Building) → b.cpg ≡ s.global_cpg → s.tail_group_bits ≤ bits_of i b
  wide_bits i b cpg = elim (Bool-cases (i == s.nr_cluster_groups - 1)) [
    | inl last ↦ rw last (omega arith)
    | inr more ↦ rw more (omega arith)
  ]

  new_group-IsPlaced :
      {n : ℕ} {bits : ℕ}
      → (i : ℕ) (b : Building) (new : AllocGroup) (bi : BitInfo) → IsBuilding i n b
      → IsNew s.blocksize size stride b.chain bits b.bi new bi
      → s.tail_group_bits ≤ bits
      → IsPlaced stride s.tail_group_bits (suc i) (length b.groups) new
  new_group-IsPlaced i b new bi is fresh wide = record {
    group = fresh.group;
    leads = subst (λ o. Leads (suc i) (length b.groups) o) (sym fresh.unlinked) tt;
    chained = rw fresh.at_chain (omega (arith, is.chain_in));
    at_blkno = λ pos. fresh.at_blkno;
    untouched = λ pos. record {
      free = fresh.others;
      one_taken = fresh.free ∙ sym fresh.has_bits;
      wide = omega (arith, fresh.has_bits);
    };
  }

  build_group-IsBuilding :
      (i n : ℕ) (b : Building)
      → 0 < i
      → i + suc n ≡ s.nr_cluster_groups
      → IsBuilding i (suc n) b
      → (b' : Building) × (build_group s 245 stride i b ≡ some b') × IsBuilding (suc i) n b'
  unfolding build_group
  build_group-IsBuilding i n b pos at_end is =
      let (more, some_bits, fits, same) = next_bits i n b at_end (is.cpg (omega arith)) in
      let (new, bi, e, fresh) =
        initialize_alloc_group-IsNew s.blocksize size stride b.chain (bits_of i b) b.bi some_bits
          fits in
      let len : length (b.groups ++ new ∷ []) ≡ suc i =
        length-append b.groups (new ∷ []) ∙ omega (arith, is.len) in
      let each =
        append-Each (IsPlaced stride s.tail_group_bits (suc i)) b.groups new
          (later stride s.tail_group_bits i b.groups is.each)
          (new_group-IsPlaced i b new bi is fresh (wide_bits i b (is.cpg (omega arith)))) in
      let (groups, e₁, len₁, each₁) =
        linked-Steps stride s.tail_group_bits i (b.groups ++ new ∷ []) len each b.wrapped
          is.wrapped in
      let (groups', e₂, len₂, each₂) =
        totalled-Steps stride s.tail_group_bits i groups len₁ each₁ b.chain new is.chain_in in
      (
        record {
          groups = groups';
          bi = bi;
          chain = if leb 245 (b.chain + 1) then 0 else b.chain + 1;
          wrapped = b.wrapped || leb 245 (b.chain + 1);
          cpg = bits_of i b;
        },
        rw (e, e₁, e₂) refl,
        record {
          len = len₂;
          each = each₂;
          chain_in = ground (arith, is.chain_in);
          chain_few = ground (arith, is.chain_few);
          wrapped = λ w. ground (arith, is.chain_in, is.wrapped);
          total = rw fresh.total (omega (arith, is.total, more));
          cpg = same;
        },
      )

  pub build_groups-IsBuilding :
      (n i : ℕ) (b : Building)
      → 0 < i
      → i + n ≡ s.nr_cluster_groups
      → IsBuilding i n b
      → (b' : Building) × (build_groups s 245 stride n i b ≡ some b')
        × IsBuilding s.nr_cluster_groups 0 b'
  unfolding build_groups
  build_groups-IsBuilding zero i b pos at_end is =
      let z : i ≡ s.nr_cluster_groups = omega arith in
      (b, refl, subst (λ (t : ℕ). IsBuilding t 0 b) z is)
  build_groups-IsBuilding (suc n) i b pos at_end is =
      let (b', e, is') = build_group-IsBuilding i n b pos at_end is in
      let up : suc i ≡ i + 1 = omega arith in
      let (b'', e', is'') =
        build_groups-IsBuilding n (i + 1) b' (omega arith) (omega arith)
          (subst (λ (t : ℕ). IsBuilding t n b') up is') in
      (b'', rw e e', is'')
