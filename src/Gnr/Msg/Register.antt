-- ===== src/Gnr/Msg/Register.antt =====
-- gnr/msg.c: the output function of a module, which is a tag of the module, and the tags of a message;
-- naf/module.c: naf_module_tag_add and naf_module_tag_remove.
--
-- `tags` has the tags of each module, by the module's address; 0 is a null function.
use timps.Prelude.{
  ℕ, ◌≡◌, ◌≢◌, sym, ◌∙◌, ap, Bool, true, false, Option, none, some, List, ◌==◌, if◌then◌else◌,
  ==_refl, arith,
}
use timps.Tags as Tags
use timps.Tags.{Tag, Data}
use timps.Tags.Cycle.{remove-add}
use timps.Gnr.Msg.{GnrMsg, outputfunc_tag}

-- A write to the tags of a module.
abbrev pub put_tags : (ℕ → List Tag) → ℕ → List Tag → ℕ → List Tag
put_tags tags m ts k = if k == m then ts else tags k

unfoldable pub module_tag_remove :
    (ℕ → List Tag) → Option ℕ → Option ℕ → List ℕ → Option (ℕ × Data) × (ℕ → List Tag)
module_tag_remove tags mod_ none name = (none, tags)
module_tag_remove tags mod_ (some m) name =
    let (found, ts) = Tags.remove (tags m) mod_ name in (found, put_tags tags m ts)

unfoldable pub msg_unregister : Option ℕ → (ℕ → List Tag) → Option ℕ → ℕ → List Tag
unfolding module_tag_remove
msg_unregister gnr_module tags mod_ = (module_tag_remove tags gnr_module mod_ outputfunc_tag).1

unfoldable pub msg_tag_remove :
    Option ℕ → Option GnrMsg → List ℕ → Option (ℕ × Data) × Option GnrMsg
msg_tag_remove mod_ none name = (none, none)
msg_tag_remove mod_ (some gm) name =
    let (found, ts) = Tags.remove gm.taglist mod_ name in (found, some (record gm { taglist = ts }))

-- `none` is -1.
unfoldable pub msg_tag_ispresent : Option ℕ → Option GnrMsg → List ℕ → Option Bool
msg_tag_ispresent mod_ none name = none
msg_tag_ispresent mod_ (some gm) name = Tags.ispresent gm.taglist mod_ name

unfoldable pub msg_tag_fetch : Option ℕ → Option GnrMsg → List ℕ → Option (ℕ × Data)
msg_tag_fetch mod_ none name = none
msg_tag_fetch mod_ (some gm) name = Tags.fetch gm.taglist mod_ name

module _ (malloc : ℕ → Option (List ℕ)) where
  unfoldable pub module_tag_add :
      (ℕ → List Tag) → Option ℕ → Option ℕ → List ℕ → ℕ → Data → Bool × (ℕ → List Tag)
  module_tag_add tags mod_ none name type content = (false, tags)
  module_tag_add tags mod_ (some m) name type content =
      let (added, ts) = Tags.add malloc (tags m) mod_ name type content in
      (added, put_tags tags m ts)

  unfoldable pub msg_register : Option ℕ → (ℕ → List Tag) → Option ℕ → ℕ → Bool × (ℕ → List Tag)
  unfolding module_tag_add
  msg_register gnr_module tags none outputfunc = (false, tags)
  msg_register gnr_module tags (some m) outputfunc =
      if outputfunc == 0
      then (true, tags)
      else module_tag_add tags gnr_module (some m) outputfunc_tag b'V' (Data.word outputfunc)

  unfoldable pub msg_tag_add : Option ℕ → Option GnrMsg → List ℕ → ℕ → Data → Bool × Option GnrMsg
  msg_tag_add mod_ none name type content = (false, none)
  msg_tag_add mod_ (some gm) name type content =
      let (added, ts) = Tags.add malloc gm.taglist mod_ name type content in
      (added, some (record gm { taglist = ts }))

  put_tags_back :
      (tags : ℕ → List Tag) (m k : ℕ) (ts : List Tag)
      → put_tags (put_tags tags m ts) m (tags m) k ≡ tags k
  put_tags_back tags m k ts = ground arith

  added :
      (tags tags' : ℕ → List Tag) (gnr_module m : ℕ) (outputfunc : ℕ)
      → outputfunc ≢ 0
      → msg_register (some gnr_module) tags (some m) outputfunc ≡ (true, tags')
      → (ts : List Tag) × (Tags.add malloc
            (tags m)
            (some gnr_module)
            outputfunc_tag
            b'V'
            (Data.word outputfunc)
          ≡ (true, ts))
        × (tags' ≡ put_tags tags m ts)
  unfolding msg_register module_tag_add
  added tags tags' gnr_module m outputfunc h e =
      let p : Bool × List Tag =
        Tags.add malloc (tags m) (some gnr_module) outputfunc_tag b'V' (Data.word outputfunc) in
      let e' : ◌≡◌ {A = Bool × (ℕ → List Tag)} (p.0, put_tags tags m p.1) (true, tags') =
        ground (arith, h, e) in
      (p.1, ap (λ b. (b, p.1)) (ap (λ q. q.0) e'), sym (ap (λ q. q.1) e'))

  -- Where gnr_msg_register of a function that is not null returns 0, the module's output function is
  -- found where gnr_msg_route looks for it, and gnr_msg_unregister gives the old tags back.
  pub msg_unregister-msg_register :
      (gnr_module : ℕ) (tags tags' : ℕ → List Tag) (m outputfunc : ℕ)
      → outputfunc ≢ 0
      → msg_register (some gnr_module) tags (some m) outputfunc ≡ (true, tags')
      → (Tags.fetch (tags' m) (some gnr_module) outputfunc_tag ≡ some (b'V', Data.word outputfunc))
        × ((k : ℕ) → msg_unregister (some gnr_module) tags' (some m) k ≡ tags k)
  unfolding msg_register module_tag_add msg_unregister module_tag_remove
  msg_unregister-msg_register gnr_module tags tags' m outputfunc h e =
      let (ts, e1, same) = added tags tags' gnr_module m outputfunc h e in
      let (there, found, back) =
        remove-add malloc (tags m) ts gnr_module outputfunc_tag b'V' (Data.word outputfunc)
          (omega arith) e1 in
      let here : tags' m ≡ ts = ap (λ f. f m) same ∙ ground (arith, ==_refl m) in
      (
        ap (λ l. Tags.fetch l (some gnr_module) outputfunc_tag) here ∙ found,
        λ k.
            ap (λ l. put_tags tags' m l k)
              (ap (λ l. (Tags.remove l (some gnr_module) outputfunc_tag).1) here
                ∙ ap (λ q. q.1) back)
            ∙ ap (λ f. put_tags f m (tags m) k) same
            ∙ put_tags_back tags m k ts,
      )
