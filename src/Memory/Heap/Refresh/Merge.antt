-- ===== src/Memory/Heap/Refresh/Merge.antt =====
-- What merging the free spaces does to the addresses that they cover.
use flame_os.Base.{
  ℕ, zero, suc, ◌+◌, ◌^◌, ◌≤◌, ◌<◌, ◌≡◌, ◌≢◌, ◌⊎◌, inl, inr, refl, sym, ap, ◌∙◌, ◌==◌, Bool-cases,
  Option-cases, none, some, List, [], ◌∷◌, length, get_elem?, set, get_elem?-set_self,
  get_elem?-set_ne, arith, add64,
}
use mathlib.Core.Path.{subst}
use mathlib.Core.Option.{some-injective}
use flame_os.Memory.Machine.{Machine, Region}
use flame_os.Memory.Heap.{heaps, region}
use flame_os.Memory.Heap.Count.{covers, count_at}
use flame_os.Memory.Heap.Refresh.{
  merge_entry, merge_loop, refresh_round, refresh_loop, refresh_row, refresh_freespace,
}

-- An entry ends inside the address space, and is empty just when its address is 0.
pub record IsTidy (r : Region) : Type 0 where
  pub fits : r.addr + r.size < 2 ^ 64
  pub empty : r.size ≡ 0 → r.addr ≡ 0
  pub used : r.addr ≡ 0 → r.size ≡ 0

abbrev pub AllTidy : List Region → Type 0
AllTidy rows = (i : ℕ) (r : Region) → get_elem? rows i ≡ some r → IsTidy r

-- No address is in two free spaces.
abbrev pub Apart : List Region → Type 0
Apart rows = (a : ℕ) → count_at rows a ≤ 1

-- What the loops keep: `rows` covers what `old` covers.
pub record Keeps (old rows : List Region) : Type 0 where
  pub tidy : AllTidy rows
  pub same : (a : ℕ) → count_at rows a ≡ count_at old a

get-lt : (rows : List Region) (i : ℕ) (r : Region) → get_elem? rows i ≡ some r → i < length rows
get-lt [] i r e = absurd (cc)
get-lt (x ∷ xs) zero r e = omega arith
get-lt (x ∷ xs) (suc i) r e = omega (arith, get-lt xs i r e)

count_at-set :
    (rows : List Region) (i : ℕ) (r r' : Region) (a : ℕ)
    → get_elem? rows i ≡ some r
    → count_at (set rows i r') a + covers r a ≡ count_at rows a + covers r' a
count_at-set [] i r r' a e = absurd (cc)
count_at-set (x ∷ xs) zero r r' a e = ground arith
count_at-set (x ∷ xs) (suc i) r r' a e = omega (arith, count_at-set xs i r r' a e)

AllTidy-set :
    (rows : List Region) (i : ℕ) (r : Region) → AllTidy rows → IsTidy r → AllTidy (set rows i r)
AllTidy-set [] i r all t j x e = absurd (cc)
AllTidy-set (y ∷ ys) zero r all t zero x e = subst IsTidy (some-injective r x e) t
AllTidy-set (y ∷ ys) zero r all t (suc j) x e = all (suc j) x e
AllTidy-set (y ∷ ys) (suc i) r all t zero x e = all zero x e
AllTidy-set (y ∷ ys) (suc i) r all t (suc j) x e =
    AllTidy-set ys i r (λ k z q. all (suc k) z q) t j x e

nothing-IsTidy : IsTidy (region 0 0)
nothing-IsTidy = record { fits = omega arith; empty = λ e. refl; used = λ e. refl }

covers-nothing : (a : ℕ) → covers (region 0 0) a ≡ 0
covers-nothing a = ground arith

module _ (old : List Region) (apart : Apart old) (j end : ℕ) where
  -- Before each round of the inner loop: entry `j` starts at or before `end` and reaches it.
  record Inv (rows : List Region) : Type 0 where
    keeps : Keeps old rows
    entry : Region
    at_j : get_elem? rows j ≡ some entry
    start : (end ≡ 0) ⊎ (entry.addr < end)
    low : entry.addr ≤ end
    reach : end ≤ entry.addr + entry.size

  module _ (rows : List Region) (v : Inv rows) (k : ℕ) (rk : Region)
      (at_k : get_elem? rows k ≡ some rk) (hit : rk.addr ≡ end) where
    abbrev grown : Region
    grown = region v.entry.addr (add64 v.entry.size rk.size)

    abbrev rows' : List Region
    rows' = set rows j grown

    merged : merge_entry k j end rows ≡ set rows' k (region 0 0)
    unfolding merge_entry
    merged = ground (arith, at_k, v.at_j, hit)

    IsTidy-j : IsTidy v.entry
    IsTidy-j = v.keeps.tidy j v.entry v.at_j

    IsTidy-k : IsTidy rk
    IsTidy-k = v.keeps.tidy k rk at_k

    at_j' : get_elem? rows' j ≡ some grown
    at_j' = get_elem?-set_self rows j grown (get-lt rows j v.entry v.at_j)

    -- Both entries are empty when `end` is 0.
    when_zero : end ≡ 0 → grown ≡ region 0 0
    when_zero z =
        let a : v.entry.addr ≡ 0 = omega (arith, v.low) in
        let n : v.entry.size ≡ 0 = IsTidy-j.used a in
        let m : rk.size ≡ 0 = IsTidy-k.used (omega arith) in ground arith

    -- The entry that is cleared, read after entry `j` has grown, covers what `j` has gained.
    module _ (gone : Region) (at_gone : get_elem? rows' k ≡ some gone)
        (gain : (a : ℕ) → covers grown a ≡ covers v.entry a + covers gone a)
        (tidy : IsTidy grown) where
      Keeps-merged : Keeps old (merge_entry k j end rows)
      Keeps-merged = rw merged (record {
        tidy =
            AllTidy-set rows' k (region 0 0) (AllTidy-set rows j grown v.keeps.tidy tidy)
              nothing-IsTidy;
        same = λ a. omega (
          arith,
          count_at-set rows j v.entry grown a v.at_j,
          count_at-set rows' k gone (region 0 0) a at_gone,
          gain a,
          v.keeps.same a,
          covers-nothing a,
        );
      })

    module _ (apart_k : j ≢ k) where
      at_gone : get_elem? rows' k ≡ some rk
      at_gone = get_elem?-set_ne rows j k grown apart_k ∙ at_k

      at_j'' : get_elem? (set rows' k (region 0 0)) j ≡ some grown
      at_j'' = get_elem?-set_ne rows' k j (region 0 0) (λ e. apart_k (sym e)) ∙ at_j'

      -- Two entries that both cover `end` would overlap.
      meets : end ≢ 0 → v.entry.addr + v.entry.size ≡ end
      meets n =
          let nonempty : rk.size ≢ 0 = λ z. n (omega (arith, IsTidy-k.empty z)) in
          let starts : v.entry.addr < end = started v.start n in
          let others = count_at-set rows j v.entry (region 0 0) end v.at_j in
          let two =
            count_at-set (set rows j (region 0 0)) k rk (region 0 0) end
              (get_elem?-set_ne rows j k (region 0 0) apart_k ∙ at_k) in
          ground (arith, others, two, v.keeps.same end, apart end, v.reach, IsTidy-k.fits)
        where
          started : (end ≡ 0) ⊎ (v.entry.addr < end) → end ≢ 0 → v.entry.addr < end
          started (inl z) n = absurd (n z)
          started (inr l) n = l

      Inv-grow : Inv (merge_entry k j end rows)
      Inv-grow = elim (Bool-cases (end == 0)) [
        | inl z ↦
            let zero_end : end ≡ 0 = ground arith in
            let e : grown ≡ region 0 0 = when_zero zero_end in
            record {
              keeps =
                  Keeps-merged rk at_gone
                    (λ a. ground (arith, e, v.low, IsTidy-j.used, IsTidy-k.used, hit, zero_end))
                    (subst IsTidy (sym e) nothing-IsTidy);
              entry = grown;
              at_j = rw merged at_j'';
              start = inl zero_end;
              low = v.low;
              reach = ground (arith, e, zero_end);
            }
        | inr nz ↦
            let pos : end ≢ 0 = λ e. ground arith in
            let m : v.entry.addr + v.entry.size ≡ end = meets pos in
            let fits : end + rk.size < 2 ^ 64 = omega (arith, IsTidy-k.fits, hit) in
            record {
              keeps =
                  Keeps-merged rk at_gone (λ a. ground (arith, m, fits, hit))
                    (record {
                      fits = omega (arith, m, fits);
                      empty = λ q. absurd (pos (omega (arith, m, fits, q, IsTidy-k.empty)));
                      used = λ q. absurd (pos (omega (arith, m, IsTidy-j.used q)));
                    });
              entry = grown;
              at_j = rw merged at_j'';
              start = v.start;
              low = v.low;
              reach = omega (arith, m, fits);
            }
      ]

    Inv-self : j ≡ k → Inv (merge_entry k j end rows)
    Inv-self same =
        let one : some rk ≡ some v.entry = sym at_k ∙ ap (get_elem? rows) (sym same) ∙ v.at_j in
        let addr : rk.addr ≡ v.entry.addr = ap (λ r. r.addr) (some-injective rk v.entry one) in
        let zero_end : end ≡ 0 = zero_start v.start (omega (arith, addr, hit)) in
        let e : grown ≡ region 0 0 = when_zero zero_end in
        let at_k' : get_elem? rows' k ≡ some grown =
          subst (λ i. get_elem? rows' i ≡ some grown) same at_j' in
        let cleared : get_elem? (set rows' k (region 0 0)) j ≡ some (region 0 0) =
          subst (λ i. get_elem? (set rows' k (region 0 0)) i ≡ some (region 0 0)) (sym same)
            (get_elem?-set_self rows' k (region 0 0) (get-lt rows' k grown at_k')) in
        record {
          keeps =
              Keeps-merged grown at_k' (λ a. ground (arith, e, v.low, IsTidy-j.used, hit, zero_end))
                (subst IsTidy (sym e) nothing-IsTidy);
          entry = region 0 0;
          at_j = rw merged cleared;
          start = inl zero_end;
          low = omega arith;
          reach = omega (arith, zero_end);
        }
      where
        zero_start : (end ≡ 0) ⊎ (v.entry.addr < end) → v.entry.addr ≡ end → end ≡ 0
        zero_start (inl z) e = z
        zero_start (inr l) e = absurd (omega arith)

  merge-none :
      (rows : List Region) (k : ℕ) → get_elem? rows k ≡ none → merge_entry k j end rows ≡ rows
  unfolding merge_entry
  merge-none rows k e = ground (arith, e)

  merge-miss :
      (rows : List Region) (k : ℕ) (rk : Region)
      → get_elem? rows k ≡ some rk
      → rk.addr ≢ end
      → merge_entry k j end rows ≡ rows
  unfolding merge_entry
  merge-miss rows k rk e ne = ground (arith, e)

  Inv-merge : (rows : List Region) (k : ℕ) → Inv rows → Inv (merge_entry k j end rows)
  Inv-merge rows k v = elim (Option-cases (get_elem? rows k)) [
    | inl nothing ↦ rw (merge-none rows k nothing) v
    | inr (rk, at_k) ↦ elim (Bool-cases (rk.addr == end)) [
      | inr miss ↦ rw (merge-miss rows k rk at_k (λ e. ground arith)) v
      | inl hit ↦ elim (Bool-cases (j == k)) [
        | inl same ↦ Inv-self rows v k rk at_k (ground arith) (ground arith)
        | inr other ↦ Inv-grow rows v k rk at_k (ground arith) (λ e. ground arith)
      ]
    ]
  ]

  Inv-loop : (left k : ℕ) (rows : List Region) → Inv rows → Inv (merge_loop left k j end rows)
  unfolding merge_loop
  Inv-loop zero k rows v = v
  Inv-loop (suc left) k rows v =
      Inv-loop left (k + 1) (merge_entry k j end rows) (Inv-merge rows k v)

round-none : (rows : List Region) (j : ℕ) → get_elem? rows j ≡ none → refresh_round j rows ≡ rows
unfolding refresh_round
round-none rows j e = ground (arith, e)

round-some :
    (rows : List Region) (j : ℕ) (r : Region)
    → get_elem? rows j ≡ some r
    → r.addr + r.size < 2 ^ 64
    → refresh_round j rows ≡ merge_loop (length rows) 0 j (r.addr + r.size) rows
unfolding refresh_round
round-some rows j r e h =
    let end : add64 r.addr r.size ≡ r.addr + r.size = ground arith in ground (arith, e, end)

round-Keeps :
    (old rows : List Region) (j : ℕ) → Apart old → Keeps old rows → Keeps old (refresh_round j rows)
round-Keeps old rows j apart keeps = elim (Option-cases (get_elem? rows j)) [
  | inl nothing ↦ rw (round-none rows j nothing) keeps
  | inr (r, at_j) ↦
      let tidy = keeps.tidy j r at_j in
      rw (round-some rows j r at_j tidy.fits)
        (Inv-loop old apart j (r.addr + r.size) (length rows) 0 rows (record {
          keeps = keeps;
          entry = r;
          at_j = at_j;
          start = ground (arith, tidy.empty);
          low = omega arith;
          reach = omega arith;
        })).keeps
]

loop-Keeps :
    (old : List Region)
    → Apart old
    → (left j : ℕ) (rows : List Region) → Keeps old rows
    → Keeps old (refresh_loop left j rows)
unfolding refresh_loop
loop-Keeps old apart zero j rows keeps = keeps
loop-Keeps old apart (suc left) j rows keeps =
    loop-Keeps old apart left (j + 1) (refresh_round j rows) (round-Keeps old rows j apart keeps)

-- `refresh_freespace` keeps the addresses that the free spaces of each heap cover, if no address is in
-- two of them, none ends past the address space, and the entries of size 0 are those at address 0.
pub refresh_freespace-count :
    (s : Machine) (heap : ℕ)
    → heap < heaps
    → AllTidy (s.freespace heap)
    → Apart (s.freespace heap)
    → Keeps (s.freespace heap) ((refresh_freespace s).freespace heap)
unfolding refresh_freespace refresh_row
refresh_freespace-count s zero h tidy apart =
    loop-Keeps (s.freespace 0) apart (length (s.freespace 0)) 0 (s.freespace 0)
      (record { tidy = tidy; same = λ a. refl })
refresh_freespace-count s (suc zero) h tidy apart =
    loop-Keeps (s.freespace 1) apart (length (s.freespace 1)) 0 (s.freespace 1)
      (record { tidy = tidy; same = λ a. refl })
refresh_freespace-count s (suc (suc heap)) h tidy apart = absurd (omega arith)

-- A used-up free space behind the one that starts where it stands takes both out of the table: the
-- memory of the first is lost.
pub refresh_row_loses :
    (addr size : ℕ)
    → 0 < size
    → 0 < addr
    → addr + size < 2 ^ 64
    → refresh_row (region addr size ∷ region addr 0 ∷ []) ≡ region 0 0 ∷ region 0 0 ∷ []
unfolding refresh_row refresh_loop refresh_round merge_loop merge_entry
refresh_row_loses addr size h h' l = ground arith
