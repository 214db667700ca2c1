-- ===== src/Bench/Slots.antt =====
-- examples/bench-natsrpc/main.go: which indices of durations the goroutines write.
use nproto.Prelude.{
  some, if◌then◌else◌, nat_beq, nat_eq, ltb, List, [], ◌∷◌, ℕ, zero, suc, ◌+◌, ◌*◌, ◌/◌, ◌%◌, ◌≤◌,
  ◌<◌, ◌≡◌, ◌≢◌, ◌⊎◌, Bool-cases, inl, inr, refl, ap, arith, All,
}
use native.Mathlib.Nat.{
  mod-lt, div-add-mod, mul-le-mul_right, suc-mul, mul_comm, zero-mul, div-lt_iff_lt-mul,
}
use nproto.Bench.{
  Flags, Bench, rpc_num_per_goroutine, rpc_num_actual, slot, start_bench, call_done, calls, Reach,
  start, next,
}

pub count : ℕ → List ℕ → ℕ
count k [] = 0
count k (x ∷ xs) = let rest = count k xs in if nat_beq x k then rest + 1 else rest

apart : (a b : ℕ) → a ≢ b → (a < b) ⊎ (b < a)
apart a b h = ground arith

row_before : (n a b : ℕ) → a < b → a * n + n ≤ b * n
row_before n a b h =
    let whole : suc a * n ≤ b * n = mul-le-mul_right n (omega (arith, h)) in
    let row = suc-mul a n in omega (arith, whole, row)

-- Different goroutines have no slot in common.
slot_apart :
    (f : Flags) (a b j k : ℕ)
    → j < rpc_num_per_goroutine f
    → k < rpc_num_per_goroutine f
    → a ≢ b
    → slot f a j ≢ slot f b k
unfolding slot
slot_apart f a b j k hj hk ne same =
    let n : ℕ = rpc_num_per_goroutine f in
    elim (apart a b ne) [
      | inl lt ↦ (let row = row_before n a b lt in omega (arith, row, hj, hk, same))
      | inr gt ↦ (let row = row_before n b a gt in omega (arith, row, hj, hk, same))
    ]

-- 1 for a slot that its goroutine has passed.
abbrev done : ℕ → ℕ → ℕ
done j pos = if ltb j pos then 1 else 0

slot_def : (f : Flags) (i j : ℕ) → slot f i j ≡ i * rpc_num_per_goroutine f + j
unfolding slot
slot_def f i j = refl

record Inv (f : Flags) (b : Bench) : Type 0 where
  bound : (i : ℕ) → b.j i ≤ rpc_num_per_goroutine f
  exact : (i j : ℕ) → j < rpc_num_per_goroutine f → count (slot f i j) b.written ≡ done j (b.j i)
  in_range : All (λ k. k < rpc_num_actual f) b.written

start-Inv : (f : Flags) (s : Bench) → start_bench f ≡ some s → Inv f s
unfolding start_bench count
start-Inv f s h =
    let fresh : Bench = record { j = λ i. 0; written = [] } in
    let is_fresh : fresh ≡ s = ground (arith, h) in
    rw (← is_fresh)
      (record { bound = λ i. omega arith; exact = λ i j lt. ground arith; in_range = tt })

call-exact :
    (f : Flags) (i : ℕ) (b : Bench)
    → b.j i < rpc_num_per_goroutine f
    → Inv f b
    → (g k : ℕ) → k < rpc_num_per_goroutine f
    → count (slot f g k) (call_done f i b).written ≡ done k ((call_done f i b).j g)
unfolding call_done count
call-exact f i b room v g k h =
    let before = v.exact g k h in
    elim (Bool-cases (nat_beq i g)) [
      | inl e ↦
          let same : i ≡ g = ground (arith, e) in
          let slot_i : slot f i (b.j i) ≡ slot f g (b.j g) = ap (λ x. slot f x (b.j x)) same in
          let place_i = slot_def f g (b.j g) in
          let place_k = slot_def f g k in rw (e, slot_i) (ground (arith, before, place_i, place_k))
      | inr e ↦
          let apart_slots : slot f i (b.j i) ≢ slot f g k =
            slot_apart f i g (b.j i) k room h (λ q. ground (arith, e, q)) in
          rw e (ground (arith, before, apart_slots))
    ]

slot_in_range :
    (f : Flags) (i j : ℕ)
    → i < f.parallel
    → j < rpc_num_per_goroutine f
    → slot f i j < rpc_num_actual f
slot_in_range f i j hi hj =
    let n : ℕ = rpc_num_per_goroutine f in
    let row = row_before n i f.parallel hi in
    let place = slot_def f i j in
    let turned : rpc_num_actual f ≡ f.parallel * n = mul_comm n f.parallel in
    omega (arith, row, place, hj, turned)

call-Inv :
    (f : Flags) (i : ℕ) (b : Bench)
    → i < f.parallel
    → b.j i < rpc_num_per_goroutine f
    → Inv f b
    → Inv f (call_done f i b)
unfolding call_done
call-Inv f i b hi room v = record {
  bound = λ g. elim (Bool-cases (nat_beq i g)) [
    | inl e ↦
        let same : i ≡ g = ground (arith, e) in
        let room_g : b.j g < rpc_num_per_goroutine f = rw same at room in
        rw e (omega (arith, room_g))
    | inr e ↦ rw e (v.bound g)
  ];
  exact = call-exact f i b room v;
  in_range = (slot_in_range f i (b.j i) hi room, v.in_range);
}

Reach-Inv : (f : Flags) {s : Bench} → Reach f s → Inv f s
Reach-Inv f (start {s} e) = start-Inv f s e
Reach-Inv f (next r (calls i hi room e)) = rw e (call-Inv f i _ hi room (Reach-Inv f r))

positive : (n p k : ℕ) → k < n * p → 0 < n
positive zero p k h = (let z = zero-mul p in absurd (omega (arith, z, h)))
positive (suc n) p k h = omega arith

-- An index of the slice is a slot of a goroutine.
slot_of :
    (f : Flags) (k : ℕ)
    → k < rpc_num_actual f
    → (i : ℕ) × (j : ℕ) × (i < f.parallel) × (j < rpc_num_per_goroutine f) × (slot f i j ≡ k)
slot_of f k h =
    let n : ℕ = rpc_num_per_goroutine f in
    let some_rows : 0 < n = positive n f.parallel k h in
    let turned : rpc_num_actual f ≡ f.parallel * n = mul_comm n f.parallel in
    let below : k / n < f.parallel = (div-lt_iff_lt-mul some_rows).1 (omega (arith, h, turned)) in
    let split = div-add-mod k n in
    let flip : n * (k / n) ≡ k / n * n = mul_comm n (k / n) in
    let place = slot_def f (k / n) (k % n) in
    (k / n, k % n, below, mod-lt k some_rows, omega (arith, split, flip, place))

-- Whatever the order of the calls, no goroutine writes outside of durations, no index is written
-- twice, and when all loops are over each index has been written exactly once.
pub fills_once :
    (f : Flags) (s : Bench) (k : ℕ)
    → Reach f s
    → k < rpc_num_actual f
    → All (λ x. x < rpc_num_actual f) s.written
      × (count k s.written ≤ 1)
      × (((i : ℕ) → i < f.parallel → s.j i ≡ rpc_num_per_goroutine f) → count k s.written ≡ 1)
fills_once f s k r h =
    let v = Reach-Inv f r in
    let (i, j, hi, hj, at_k) = slot_of f k h in
    let known : count k s.written ≡ done j (s.j i) = rw at_k at (v.exact i j hj) in
    (
      v.in_range,
      ground (arith, known),
      λ over. (let full = over i hi in ground (arith, known, full, hj)),
    )
