-- ===== src/Rpc.antt =====
-- naf/rpc.c: calls of one module's methods by another (`naf_rpc_arg_t` and `naf_rpc_req_t` of
-- include/naf/nafrpc.h), which is how naf is asked for its state from outside.
--
-- A module or a function is its address, and a name the list of its bytes. `malloc` is what naf_malloc
-- returns, `tagged` whether naf_module_tag_add of "module.rpi" succeeds. The methods of a module are what
-- that tag points at, `none` without the tag. Functions that add to the children of an array are given
-- those children. The method that is called is the parameter `invoke`.
pub mod Methods
pub mod Help
mod Runs
use timps.Prelude.{
  ℕ, ◌+◌, ◌%◌, ◌^◌, Bool, true, false, Option, none, some, List, [], ◌∷◌, ◌==◌, if◌then◌else◌,
  length,
}
use timps.Gnr.Name.{strcasecmp}

mutual
  pub data Arg : Type 0 where
    scalar : List ℕ → ℕ → Arg
    array : List ℕ → Args → Arg
    generic : List ℕ → List ℕ → Arg
    boolean : List ℕ → ℕ → Arg
    string : List ℕ → List ℕ → Arg

  pub data Args : Type 0 where
    end : Args
    next : Arg → Args → Args

-- NAF_RPC_STATUS_SUCCESS and the others
pub data Status : Type 0 where
  success unknowntarget unknownmethod invalidargs pending unknownfailure : Status

pub record Req : Type 0 where
  pub target : List ℕ
  pub method : List ℕ
  pub inargs : Args
  pub status : Status
  pub returnargs : Args

unfoldable pub arg_name : Arg → List ℕ
arg_name (scalar name v) = name
arg_name (array name children) = name
arg_name (generic name bytes) = name
arg_name (boolean name v) = name
arg_name (string name s) = name

-- The field `length`, of 16 bits.
unfoldable pub arg_length : Arg → ℕ
arg_length (scalar name v) = 4
arg_length (array name children) = 0
arg_length (generic name bytes) = length bytes % 2 ^ 16
arg_length (boolean name v) = 1
arg_length (string name s) = (length s + 1) % 2 ^ 16

unfoldable pub appendarg : Args → Arg → Args
appendarg end narg = next narg end
appendarg (next a args) narg = next a (appendarg args narg)

unfoldable pub naf_rpc_getarg : Args → List ℕ → Option Arg
unfolding arg_name
naf_rpc_getarg end name = none
naf_rpc_getarg (next a args) name =
    if strcasecmp (arg_name a) name then some a else naf_rpc_getarg args name

-- sizeof(naf_rpc_arg_t), sizeof(naf_rpc_req_t), sizeof(struct rpcmethod) and
-- sizeof(struct rpcmoduleinfo) on a 32-bit machine
abbrev pub arg_size : ℕ
arg_size = 16

abbrev pub req_size : ℕ
req_size = 20

abbrev pub method_size : ℕ
method_size = 16

abbrev pub info_size : ℕ
info_size = 4

pub record Method : Type 0 where
  pub name : List ℕ
  pub func : ℕ
  pub desc : Option (List ℕ)

unfoldable pub findmethod : List Method → List ℕ → Option Method
findmethod [] name = none
findmethod (rm ∷ rms) name = if strcasecmp rm.name name then some rm else findmethod rms name

-- The loop of naf_rpc_unregister_method.
unfoldable pub remmethod : List Method → List ℕ → Bool × List Method
remmethod [] name = (false, [])
remmethod (rm ∷ rms) name =
    let (done, rest) = remmethod rms name in
    if strcasecmp rm.name name then (true, rms) else (done, rm ∷ rest)

-- The methods of each module.
abbrev pub Registry : Type 0
Registry = ℕ → Option (List Method)

abbrev pub put_methods : Registry → ℕ → List Method → Registry
put_methods infos m rms k = if k == m then some rms else infos k

module _ (malloc : ℕ → Option (List ℕ)) where
  -- Whether naf_strdup succeeds.
  unfoldable pub can_dup : List ℕ → Bool
  can_dup s = elim (malloc (length s + 1)) [ none ↦ false | some _ ↦ true ]

  -- Whether naf_rpc_arg_new succeeds.
  unfoldable pub arg_new : List ℕ → Bool
  unfolding can_dup
  arg_new name = elim (malloc arg_size) [ none ↦ false | some _ ↦ can_dup name ]

  -- naf_rpc_addarg_scalar and naf_rpc_addarg_bool: whether they return 0, and the list afterwards.
  unfoldable pub addarg_scalar : Args → List ℕ → ℕ → Bool × Args
  unfolding arg_new appendarg
  addarg_scalar head name val =
      if arg_new name then (true, appendarg head (scalar name (val % 2 ^ 32))) else (false, head)

  unfoldable pub addarg_bool : Args → List ℕ → ℕ → Bool × Args
  unfolding arg_new appendarg
  addarg_bool head name val =
      if arg_new name then (true, appendarg head (boolean name (val % 2 ^ 8))) else (false, head)

  unfoldable pub addarg_generic : Args → List ℕ → List ℕ → Bool × Args
  unfolding arg_new appendarg
  addarg_generic head name bytes =
      if arg_new name
      then elim (malloc (length bytes)) [
        | none ↦ (false, head)
        | some _ ↦ (true, appendarg head (generic name bytes))
      ]
      else (false, head)

  unfoldable pub addarg_string : Args → List ℕ → List ℕ → Bool × Args
  unfolding arg_new can_dup appendarg
  addarg_string head name s =
      if arg_new name
      then if can_dup s then (true, appendarg head (string name s)) else (false, head)
      else (false, head)

  -- naf_rpc_addarg_array with what is added to the children.
  unfoldable pub addarg_array : Args → List ℕ → Args → Bool × Args
  unfolding arg_new appendarg
  addarg_array head name children =
      if arg_new name then (true, appendarg head (array name children)) else (false, head)

  unfoldable pub naf_rpc_request_new : List ℕ → List ℕ → Option Req
  unfolding can_dup
  naf_rpc_request_new target method = elim (malloc req_size) [
    | none ↦ none
    | some _ ↦
        if can_dup target
        then if can_dup method
          then some (record {
            target = target;
            method = method;
            inargs = end;
            status = pending;
            returnargs = end;
          })
          else none
        else none
  ]

  -- addmethod on the methods of a module.
  unfoldable pub addmethod : List Method → List ℕ → ℕ → Option (List ℕ) → Bool × List Method
  unfolding findmethod can_dup
  addmethod rms name func desc = elim (findmethod rms name) [
    | some _ ↦ (true, rms)
    | none ↦ elim (malloc method_size) [
      | none ↦ (false, rms)
      | some _ ↦
          let described : Bool = elim desc [ none ↦ true | some d ↦ can_dup d ] in
          if can_dup name
          then if described
            then (true, record { name = name; func = func; desc = desc } ∷ rms)
            else (false, rms)
          else (false, rms)
    ]
  ]

  -- naf_rpc_register_method with what fetchinfo answers.
  unfoldable pub register_in :
      ℕ → List ℕ → ℕ → Option (List ℕ) → Option (List Method) × Registry → Bool × Registry
  unfolding addmethod
  register_in m name func desc (none, infos) = (false, infos)
  register_in m name func desc (some rms, infos) =
      let (done, rms') = addmethod rms name func desc in (done, put_methods infos m rms')

  module _ (tagged : ℕ → Bool) where
    -- The methods of a module, or `none` for NULL, and the registry afterwards.
    unfoldable pub fetchinfo : Registry → ℕ → Option (List Method) × Registry
    fetchinfo infos m = elim (infos m) [
      | some rms ↦ (some rms, infos)
      | none ↦ elim (malloc info_size) [
        | none ↦ (none, infos)
        | some _ ↦ if tagged m then (some [], put_methods infos m []) else (none, infos)
      ]
    ]

    unfoldable pub naf_rpc_register_method :
        Registry → ℕ → List ℕ → ℕ → Option (List ℕ) → Bool × Registry
    unfolding fetchinfo register_in
    naf_rpc_register_method infos m name func desc =
        register_in m name func desc (fetchinfo infos m)

    unfoldable pub naf_rpc_unregister_method : Registry → ℕ → List ℕ → Bool × Registry
    unfolding fetchinfo remmethod
    naf_rpc_unregister_method infos m name =
        let (rpi, infos1) = fetchinfo infos m in
        elim rpi [
          | none ↦ (false, infos1)
          | some rms ↦ let (done, rms') = remmethod rms name in (done, put_methods infos1 m rms')
        ]

    -- naf_rpc_request_issue of a request that is not null. `findbyname` is naf_module_findbyname, and
    -- `invoke` what the function of a method makes of the module and the request.
    unfoldable pub naf_rpc_request_issue :
        (List ℕ → Option ℕ) → (ℕ → ℕ → Req → Req) → Registry → Req → Req × Registry
    unfolding fetchinfo findmethod
    naf_rpc_request_issue findbyname invoke infos req = elim (findbyname req.target) [
      | none ↦ (record req { status = unknowntarget }, infos)
      | some target ↦
          let (rpi, infos1) = fetchinfo infos target in
          let rm : Option Method = elim rpi [
            | none ↦ none
            | some rms ↦ findmethod rms req.method
          ] in
          elim rm [
            | none ↦ (record req { status = unknownmethod }, infos1)
            | some m ↦ (invoke m.func target req, infos1)
          ]
    ]
