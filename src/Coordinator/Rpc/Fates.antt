-- ===== src/Coordinator/Rpc/Fates.antt =====
-- The goroutines that `SetupRPCComm` (internal/coordinator/coordinator.go) starts for its sends: they run in
-- any order, and a failed dial drops the call.
use mathlib.Core.List.Perm
use mathlib.Core.List.{Perm, perm_middle, filter_map}
use ensemble_chat.Common.{
  ◌≡◌, refl, sym, subst, Bool, true, false, Option, none, List, [], ◌∷◌, ◌++◌, map, String, arith,
  str_eq, if◌then◌else◌,
}
use ensemble_chat.Transport.Calls.{Call, RpcHandler, node_rpc, serve_calls, delivered}
use ensemble_chat.Coordinator.Rpc.Reach.{serve_calls-append}

abbrev pub call_of : Call × Bool → Call
call_of (c, dialed) = c

-- The calls that a failed dial drops.
unfoldable pub undelivered : List (Call × Bool) → List Call
undelivered [] = []
undelivered ((c, dialed) ∷ runs) = let rest = undelivered runs in if dialed then rest else c ∷ rest

delivered-Perm :
    (runs : List (Call × Bool)) → Perm (delivered runs ++ undelivered runs) (map call_of runs)
unfolding delivered undelivered
delivered-Perm [] = Perm.refl []
delivered-Perm ((c, true) ∷ runs) = Perm.cons c (delivered-Perm runs)
delivered-Perm ((c, false) ∷ runs) =
    Perm.trans (perm_middle (delivered runs) (undelivered runs)) (Perm.cons c (delivered-Perm runs))

module _ {ℓ} {R : Type ℓ} (h : RpcHandler R) (addr : String) where
  abbrev answer : Call → Option R
  answer c = if str_eq c.addr addr then node_rpc h c.method c.args else none

  serve_calls-filter_map : (cs : List Call) → serve_calls h addr cs ≡ filter_map answer cs
  unfolding serve_calls filter_map
  serve_calls-filter_map [] = refl
  serve_calls-filter_map (c ∷ cs) = ground (arith, serve_calls-filter_map cs)

  serve_calls-Perm :
      {cs ds : List Call} → Perm cs ds → Perm (serve_calls h addr cs) (serve_calls h addr ds)
  serve_calls-Perm {cs} {ds} p =
      subst (λ xs. Perm xs (serve_calls h addr ds)) (sym (serve_calls-filter_map cs))
        (subst (Perm (filter_map answer cs)) (sym (serve_calls-filter_map ds))
          (Perm.filter_map answer p))

  -- What is served, with what the dropped calls would have been, is what all the calls would have been.
  pub runs_served :
      (runs : List (Call × Bool)) (calls : List Call)
      → Perm (map call_of runs) calls
      → Perm
          (serve_calls h addr (delivered runs) ++ serve_calls h addr (undelivered runs))
          (serve_calls h addr calls)
  runs_served runs calls p =
      subst (λ xs. Perm xs (serve_calls h addr calls))
        (serve_calls-append h addr (delivered runs) (undelivered runs))
        (serve_calls-Perm (Perm.trans (delivered-Perm runs) p))
