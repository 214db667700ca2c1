-- ===== src/Bench.antt =====
-- examples/bench-natsrpc/main.go: the goroutines that fill the slice of durations.
pub mod Slots
mod Tests
use nproto.Prelude.{
  Option, none, some, Bool, true, false, if◌then◌else◌, nat_beq, nat_eq, ltb, List, [], ◌∷◌, ℕ,
  zero, suc, ◌+◌, ◌*◌, ◌/◌, ◌%◌, ◌≤◌, ◌<◌, ◌≡◌, ◌≢◌, ◌⊎◌, Bool-cases, inl, inr, refl, ap, ◌∙◌,
  arith, All,
}
use native.Mathlib.Nat.{
  mod-lt, div-add-mod, mul-le-mul_right, suc-mul, mul_comm, zero-mul, div-lt_iff_lt-mul,
}

-- The flags that the goroutines depend on: -n, -p and -c.
pub record Flags : Type 0 where
  pub rpc_num : ℕ
  pub parallel : ℕ
  pub client_num : ℕ

abbrev pub rpc_num_per_goroutine : Flags → ℕ
rpc_num_per_goroutine f = f.rpc_num / f.parallel

-- The length of durations.
abbrev pub rpc_num_actual : Flags → ℕ
rpc_num_actual f = rpc_num_per_goroutine f * f.parallel

-- The client of goroutine i.
abbrev pub client_of : Flags → ℕ → ℕ
client_of f i = i % f.client_num

-- durations[offset+j] of goroutine i.
pub slot : Flags → ℕ → ℕ → ℕ
slot f i j = i * rpc_num_per_goroutine f + j

-- `j` is the variable of each goroutine's loop, `written` the indices that have been assigned.
pub record Bench : Type 0 where
  pub j : ℕ → ℕ
  pub written : List ℕ

-- The state before the goroutines; `none` is the panic of the division of -n by -p.
pub start_bench : Flags → Option Bench
start_bench f = if nat_beq f.parallel 0 then none else some (record { j = λ i. 0; written = [] })

-- One round of the loop of goroutine i: a call that succeeds, and its duration.
pub call_done : Flags → ℕ → Bench → Bench
unfolding slot
call_done f i b = record {
  j = λ g. if nat_beq i g then b.j g + 1 else b.j g;
  written = slot f i (b.j i) ∷ b.written;
}

pub data Step (f : Flags) (s t : Bench) : Type 0 where
  calls :
      (i : ℕ) → i < f.parallel → s.j i < rpc_num_per_goroutine f → t ≡ call_done f i s → Step f s t

pub data Reach (f : Flags) : Bench → Type 0 where
  start : {s : Bench} → start_bench f ≡ some s → Reach f s
  next : {s t : Bench} → Reach f s → Step f s t → Reach f t
