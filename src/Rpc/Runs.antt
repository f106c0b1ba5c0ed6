-- ===== src/Rpc/Runs.antt =====
-- Runs of the remote calls of naf/rpc.c, and their theorems at concrete inputs.
use timps.Prelude.{ℕ, ◌≡◌, refl, Bool, true, Option, none, some, List, [], ◌∷◌, ◌==◌, if◌then◌else◌}
use timps.Fixture.{zeros}
use timps.Gnr.Name.{strcasecmp}
use timps.Rpc.{
  end, next, array, string, Req, pending, success, unknownmethod, Registry, fetchinfo,
  naf_rpc_register_method, naf_rpc_unregister_method, naf_rpc_request_issue,
}
use timps.Rpc.Help.{rpc_help, methods_name, description_name}
use timps.Rpc.Methods.{issue-register}

-- "ping" and "PING" of module 7, "rpc"
abbrev ping : List ℕ
ping = b'p' ∷ b'i' ∷ b'n' ∷ b'g' ∷ []

abbrev shouted : List ℕ
shouted = b'P' ∷ b'I' ∷ b'N' ∷ b'G' ∷ []

abbrev rpc : List ℕ
rpc = b'r' ∷ b'p' ∷ b'c' ∷ []

abbrev by_name : List ℕ → Option ℕ
by_name name = if strcasecmp name rpc then some 7 else none

abbrev answers : ℕ → ℕ → Req → Req
answers func target req = record req { status = success }

abbrev request : Req
request = record {
  target = rpc;
  method = shouted;
  inargs = end;
  status = pending;
  returnargs = end;
}

abbrev no_methods : Registry
no_methods m = none

abbrev all_tagged : ℕ → Bool
all_tagged m = true

abbrev with_ping : Registry
with_ping m = if m == 7 then some (record { name = ping; func = 3; desc = some rpc } ∷ []) else none

-- The listing of a module with one method.
helps :
    (rpc_help zeros all_tagged (λ _. rpc) (7 ∷ 8 ∷ []) by_name with_ping request).0.returnargs
    ≡ next
        (array methods_name
          (next (array rpc (next (array ping (next (string description_name rpc) end)) end)) end))
        end
unfolding rpc_help fetchinfo
helps = refl

issue-register_example :
    (naf_rpc_request_issue zeros all_tagged by_name answers
        (naf_rpc_register_method zeros all_tagged no_methods 7 ping 3 none).1
        request
      ≡ (
        record request { status = success },
        (naf_rpc_register_method zeros all_tagged no_methods 7 ping 3 none).1,
      ))
    × (infos'' : Registry) × (naf_rpc_unregister_method zeros all_tagged
          (naf_rpc_register_method zeros all_tagged no_methods 7 ping 3 none).1
          7
          shouted
        ≡ (true, infos''))
    × (naf_rpc_request_issue zeros all_tagged by_name answers infos'' request
        ≡ (record request { status = unknownmethod }, infos''))
unfolding naf_rpc_register_method strcasecmp
issue-register_example =
    issue-register zeros all_tagged no_methods
      (naf_rpc_register_method zeros all_tagged no_methods 7 ping 3 none).1 7 ping 3 none by_name
      answers request refl refl refl refl
