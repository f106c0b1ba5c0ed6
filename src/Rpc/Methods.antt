-- ===== src/Rpc/Methods.antt =====
-- naf/rpc.c: methods from their registration to their removal, and the requests to them.
use timps.Prelude.{
  ℕ, ◌≡◌, ◌⊎◌, refl, sym, ◌∙◌, ap, inl, inr, Bool, true, Bool-cases, Option-cases, Option, none,
  some, List, [], ◌∷◌, if◌then◌else◌, arith, ==_refl, bytes_eq, bytes_eq_sound,
}
use mathlib.Core.List.{map}
use timps.Gnr.Name.{strcasecmp, tolower}
use timps.Rpc.{
  unknownmethod, Req, Method, Registry, put_methods, findmethod, fetchinfo, addmethod, remmethod,
  register_in, naf_rpc_register_method, naf_rpc_unregister_method, naf_rpc_request_issue, info_size,
}

-- Names that are equal but for case find the same method.
findmethod_case :
    (rms : List Method) (a b : List ℕ) → strcasecmp a b ≡ true → findmethod rms a ≡ findmethod rms b
unfolding findmethod strcasecmp
findmethod_case [] a b h = refl
findmethod_case (rm ∷ rms) a b h =
    ap (λ l. if bytes_eq (map tolower rm.name) l then some rm else findmethod rms a)
      (bytes_eq_sound (map tolower a) (map tolower b) h)
    ∙ ap (λ o. if strcasecmp rm.name b then some rm else o) (findmethod_case rms a b h)

-- The methods of a module that a request finds.
abbrev known : Registry → ℕ → List ℕ → Option Method
known infos m name = elim (infos m) [ none ↦ none | some rms ↦ findmethod rms name ]

module _ (malloc : ℕ → Option (List ℕ)) (tagged : ℕ → Bool) where
  addmethod_lem :
      (rms rms' : List Method) (name : List ℕ) (func : ℕ) (desc : Option (List ℕ))
      → findmethod rms name ≡ none
      → addmethod malloc rms name func desc ≡ (true, rms')
      → rms' ≡ record { name = name; func = func; desc = desc } ∷ rms
  unfolding addmethod
  addmethod_lem rms rms' name func desc new e = ground (arith, e, new)

  fetchinfo_lem :
      (infos infos1 : Registry) (m : ℕ) (rms : List Method)
      → fetchinfo malloc tagged infos m ≡ (some rms, infos1)
      → (infos1 m ≡ some rms) × ((infos m ≡ some rms) ⊎ ((infos m ≡ none) × (rms ≡ [])))
  unfolding fetchinfo
  fetchinfo_lem infos infos1 m rms e = elim (Option-cases (infos m)) [
    | inr (old, h) ↦
        let same : infos ≡ infos1 = ap (λ p. p.1) (rw (fetchinfo, h) at e) in
        let rs : some old ≡ some rms = ap (λ p. p.0) (rw (fetchinfo, h) at e) in
        (ap (λ f. f m) (sym same) ∙ h ∙ rs, inl (h ∙ rs))
    | inl h ↦ elim (Option-cases (malloc info_size)) [
      | inl g ↦ absurd (ground (arith, e, h, g))
      | inr (_, g) ↦ elim (Bool-cases (tagged m)) [
        | inr t ↦ absurd (ground (arith, e, h, g, t))
        | inl t ↦
            let same : put_methods infos m [] ≡ infos1 =
              ap (λ p. p.1) (rw (fetchinfo, h, g, t) at e) in
            let rs : some [] ≡ some rms = ap (λ p. p.0) (rw (fetchinfo, h, g, t) at e) in
            (
              ap (λ f. f m) (sym same) ∙ (ground (arith, ==_refl m)) ∙ rs,
              inr (h, ground (arith, rs)),
            )
      ]
    ]
  ]

  fetchinfo_known :
      (infos : Registry) (m : ℕ) {rms : List Method}
      → infos m ≡ some rms
      → (fetchinfo malloc tagged infos m).1 ≡ infos
  unfolding fetchinfo
  fetchinfo_known infos m h = rw (fetchinfo, h) refl

  -- What naf_rpc_register_method leaves where it returns 0 for a new name.
  registered_lem :
      (infos infos' : Registry) (m : ℕ) (name : List ℕ) (func : ℕ) (desc : Option (List ℕ))
      → known infos m name ≡ none
      → naf_rpc_register_method malloc tagged infos m name func desc ≡ (true, infos')
      → (rms : List Method) × (findmethod rms name ≡ none)
        × (infos' m ≡ some (record { name = name; func = func; desc = desc } ∷ rms))
  unfolding naf_rpc_register_method register_in
  registered_lem infos infos' m name func desc new e =
      go (fetchinfo malloc tagged infos m).0 (fetchinfo malloc tagged infos m).1 refl
    where
      go :
          (rpi : Option (List Method)) (infos1 : Registry)
          → fetchinfo malloc tagged infos m ≡ (rpi, infos1)
          → (rms : List Method) × (findmethod rms name ≡ none)
            × (infos' m ≡ some (record { name = name; func = func; desc = desc } ∷ rms))
      go none infos1 f =
          absurd (ground (arith, ap (register_in malloc m name func desc) (sym f) ∙ e))
      go (some rms) infos1 f =
          let (_, old) = fetchinfo_lem infos infos1 m rms f in
          let fresh : findmethod rms name ≡ none = elim old [
            | inl h ↦ ground (arith, new, h)
            | inr (_, h) ↦ rw (h, findmethod) refl
          ] in
          let out = addmethod malloc rms name func desc in
          let e' : (out.0, put_methods infos1 m out.1) ≡ (true, infos') =
            ap (register_in malloc m name func desc) (sym f) ∙ e in
          let added =
            addmethod_lem rms out.1 name func desc fresh
              (ap (λ b. (b, out.1)) (ap (λ p. p.0) e')) in
          (
            rms,
            fresh,
            ap (λ f. f m) (sym (ap (λ p. p.1) e')) ∙ ground (arith, ==_refl m) ∙ ap some added,
          )

  -- If a module has no method of a name, and naf_rpc_register_method of one returns 0, then
  -- naf_rpc_request_issue to the module and the name, in any case of letters, calls its
  -- function with the module and the request. naf_rpc_unregister_method of the name, in any
  -- case of letters, then returns 0, and after that the request has the status of an unknown
  -- method and nothing is called.
  pub issue-register :
      (infos infos' : Registry) (m : ℕ) (name : List ℕ) (func : ℕ) (desc : Option (List ℕ))
      (findbyname : List ℕ → Option ℕ) (invoke : ℕ → ℕ → Req → Req) (req : Req)
      → known infos m name ≡ none
      → naf_rpc_register_method malloc tagged infos m name func desc ≡ (true, infos')
      → findbyname req.target ≡ some m
      → strcasecmp name req.method ≡ true
      → (naf_rpc_request_issue malloc tagged findbyname invoke infos' req
          ≡ (invoke func m req, infos'))
        × (infos'' : Registry) × (naf_rpc_unregister_method malloc tagged infos' m req.method
            ≡ (true, infos''))
        × (naf_rpc_request_issue malloc tagged findbyname invoke infos'' req
            ≡ (record req { status = unknownmethod }, infos''))
  unfolding naf_rpc_request_issue naf_rpc_unregister_method fetchinfo findmethod remmethod
  issue-register infos infos' m name func desc findbyname invoke req new e at same =
      let (rms, fresh, now) = registered_lem infos infos' m name func desc new e in
      let gone : findmethod rms req.method ≡ none =
        sym (findmethod_case rms name req.method same) ∙ fresh in
      let here : put_methods infos' m rms m ≡ some rms = ground (arith, ==_refl m) in
      let kept : (fetchinfo malloc tagged infos' m).1 ≡ infos' = fetchinfo_known infos' m now in
      let kept' : (fetchinfo malloc tagged (put_methods infos' m rms) m).1
          ≡ put_methods infos' m rms =
        fetchinfo_known (put_methods infos' m rms) m here in
      (
        rw (naf_rpc_request_issue, at, now, same) (ap (λ i. (invoke func m req, i)) kept),
        put_methods infos' m rms,
        rw (naf_rpc_unregister_method, now, same)
            (ap (λ (i : Registry). (true, put_methods i m rms)) kept),
        rw (naf_rpc_request_issue, at, here, gone)
            (ap (λ i. (record req { status = unknownmethod }, i)) kept'),
      )
