-- ===== src/Natsrpc/Options/Tests.antt =====
-- natsrpc/options.go: the theorem on NewServerConn at a concrete input.
use nproto.Prelude.{codes, ◌≡◌, ◌≢◌, refl, [], ◌∷◌, true, Option, some, List, ℕ}
use nproto.Prelude.Int.{negsuc}
use nproto.Go.{Error}
use nproto.Names.{matches_prefix}
use nproto.Natsrpc.Server.Registry.{IsValid}
use nproto.Natsrpc.Options.{
  ServerConnOption, sc_opt_runner, sc_opt_group, ServerConfig, new_server_conn, server_conn_of,
}
use nproto.Natsrpc.Options.Laws.{Settled, new_server_conn-IsValid}
use nproto.Samples.{printer, background}

-- A second runner, and then a group that is refused.
abbrev opts : List ServerConnOption
opts = sc_opt_runner (some 8) ∷ sc_opt_group [] ∷ []

new_server_conn-IsValid_example :
    (e : Option Error) × (c : ServerConfig) × (new_server_conn printer
        (λ i. codes "0")
        background
        7
        (negsuc 0)
        opts
      ≡ (e, some c))
    × (matches_prefix c.subject_prefix ≡ true)
    × (c.group ≢ [])
    × IsValid (server_conn_of {W = ℕ} c)
    × Settled printer (λ i. codes "0") background opts 7 e c
new_server_conn-IsValid_example =
    new_server_conn-IsValid printer (λ i. codes "0") {W = ℕ} background 7 (negsuc 0) opts refl
