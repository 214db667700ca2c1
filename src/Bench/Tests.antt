-- ===== src/Bench/Tests.antt =====
-- examples/bench-natsrpc: the theorem at a concrete run.
use nproto.Prelude.{nat_eq, All, [], ◌∷◌, ℕ, ◌≤◌, ◌<◌, ◌≡◌, refl, arith}
use nproto.Bench.{
  Flags, Bench, rpc_num_per_goroutine, rpc_num_actual, slot, start_bench, call_done, calls, Reach,
  start, next,
}
use nproto.Bench.Slots.{count, fills_once}

-- Five calls on two goroutines: two for each.
abbrev flags : Flags
flags = record { rpc_num = 5; parallel = 2; client_num = 3 }

abbrev b0 : Bench
b0 = record { j = λ i. 0; written = [] }

abbrev b1 : Bench
b1 = call_done flags 1 b0

abbrev b2 : Bench
b2 = call_done flags 0 b1

abbrev b3 : Bench
b3 = call_done flags 1 b2

abbrev b4 : Bench
b4 = call_done flags 0 b3

b4_written : b4.written ≡ 1 ∷ 3 ∷ 0 ∷ 2 ∷ []
unfolding call_done slot
b4_written = refl

b4-Reach : Reach flags b4
unfolding call_done start_bench
b4-Reach =
    next
      (next
        (next (next (start refl) (calls 1 (omega arith) (omega arith) refl))
          (calls 0 (omega arith) (omega arith) refl))
        (calls 1 (omega arith) (omega arith) refl))
      (calls 0 (omega arith) (omega arith) refl)

fills_once_example :
    All (λ x. x < rpc_num_actual flags) b4.written
    × (count 3 b4.written ≤ 1)
    × (((i : ℕ) → i < 2 → b4.j i ≡ rpc_num_per_goroutine flags) → count 3 b4.written ≡ 1)
fills_once_example = fills_once flags b4 3 b4-Reach (omega arith)
