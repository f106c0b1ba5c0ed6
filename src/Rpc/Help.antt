-- ===== src/Rpc/Help.antt =====
-- naf/rpc.c: the method "help", which lists the methods of a module or of all.
--
-- `name_of` is the name of a module and `modules` the modules that naf_module_iter goes through.
use timps.Prelude.{ℕ, Bool, Option, none, some, List, [], ◌∷◌, if◌then◌else◌}
use timps.Rpc.{
  Args, end, scalar, array, generic, boolean, string, Req, success, invalidargs, Method, Registry,
  naf_rpc_getarg, addarg_array, addarg_string, fetchinfo,
}

-- "description", "module" and "methods"
abbrev pub description_name : List ℕ
description_name = b'd' ∷ b'e' ∷ b's' ∷ b'c' ∷ b'r' ∷ b'i' ∷ b'p' ∷ b't' ∷ b'i' ∷ b'o' ∷ b'n' ∷ []

abbrev pub module_name : List ℕ
module_name = b'm' ∷ b'o' ∷ b'd' ∷ b'u' ∷ b'l' ∷ b'e' ∷ []

abbrev pub methods_name : List ℕ
methods_name = b'm' ∷ b'e' ∷ b't' ∷ b'h' ∷ b'o' ∷ b'd' ∷ b's' ∷ []

module _ (malloc : ℕ → Option (List ℕ)) where
  -- helpiter on one module: an array with an array for each method, and its description.
  unfoldable pub help_methods : Args → List Method → Args
  unfolding addarg_array addarg_string
  help_methods head [] = head
  help_methods head (rm ∷ rms) =
      let inner : Args = elim rm.desc [
        | none ↦ end
        | some d ↦ (addarg_string malloc end description_name d).1
      ] in
      help_methods (addarg_array malloc head rm.name inner).1 rms

  unfoldable pub helpiter : (ℕ → Bool) → (ℕ → List ℕ) → ℕ → Registry × Args → Registry × Args
  unfolding fetchinfo help_methods addarg_array
  helpiter tagged name_of cur (infos, top) =
      let (rpi, infos1) = fetchinfo malloc tagged infos cur in
      elim rpi [
        | none ↦ (infos1, top)
        | some [] ↦ (infos1, top)
        | some (rm ∷ rms) ↦
            (infos1, (addarg_array malloc top (name_of cur) (help_methods end (rm ∷ rms))).1)
      ]

  unfoldable pub helpiter_all :
      (ℕ → Bool) → (ℕ → List ℕ) → List ℕ → Registry × Args → Registry × Args
  unfolding helpiter
  helpiter_all tagged name_of [] s = s
  helpiter_all tagged name_of (m ∷ ms) s =
      helpiter_all tagged name_of ms (helpiter tagged name_of m s)

  -- __rpc_rpc_help past the test of its argument: `asked` is the name of a module, or none.
  unfoldable pub help_answer :
      (ℕ → Bool)
      → (ℕ → List ℕ)
      → List ℕ
      → (List ℕ → Option ℕ)
      → Option (List ℕ)
      → Registry
      → Req
      → Req × Registry
  unfolding helpiter_all helpiter
  help_answer tagged name_of modules findbyname asked infos req =
      let out : Registry × Args = elim asked [
        | none ↦ helpiter_all tagged name_of modules (infos, end)
        | some m ↦ elim (findbyname m) [
          | none ↦ (infos, end)
          | some pmod ↦ helpiter tagged name_of pmod (infos, end)
        ]
      ] in
      let (added, args) = addarg_array malloc req.returnargs methods_name out.1 in
      (record req { status = success; returnargs = args }, if added then out.0 else infos)

  unfoldable pub rpc_help :
      (ℕ → Bool) → (ℕ → List ℕ) → List ℕ → (List ℕ → Option ℕ) → Registry → Req → Req × Registry
  unfolding help_answer naf_rpc_getarg
  rpc_help tagged name_of modules findbyname infos req =
      elim (naf_rpc_getarg req.inargs module_name) [
        | none ↦ help_answer tagged name_of modules findbyname none infos req
        | some (string name s) ↦ help_answer tagged name_of modules findbyname (some s) infos req
        | some (scalar name v) ↦ (record req { status = invalidargs }, infos)
        | some (array name children) ↦ (record req { status = invalidargs }, infos)
        | some (generic name bytes) ↦ (record req { status = invalidargs }, infos)
        | some (boolean name v) ↦ (record req { status = invalidargs }, infos)
      ]
