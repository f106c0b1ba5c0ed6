-- ===== src/Oscar/Im/Delivery/Runs.antt =====
-- timps/oscar/im.c: a message that is sent and read, and a short packet, at concrete bytes.
use timps.Prelude.{◌+◌, ◌^◌, ℕ, ◌≡◌, refl, Bool, true, none, some, List, [], ◌∷◌, arith, length}
use timps.Fixture.{zeros, zeros-IsMalloc, zeros-Grants}
use timps.Sbuf.{init_with}
use timps.Sbuf.Valid.{init_with-IsValid}
use timps.Tlv.{done, fault}
use timps.Tags.{Tag, Data, fetch, add, ispresent}
use timps.Gnr.Node.{Table, hash_init}
use timps.Gnr.Msg.{GnrMsg, Routing}
use timps.Oscar.Snac.{Snac}
use timps.Oscar.Im.Channel.{html, pointer, msgtlv_tag, extratlvs_tag}
use timps.Oscar.Im.Handlers.{
  error, Places, screenname, screenname_tag, snacid_tag, cookie_tag, srcuserinfo_tag, service,
  blank_msg, hinted, send_on, told_of, handler_0006, handler_0007,
}
use timps.Oscar.Im.Arrival.{handler_0007_short}
use timps.Oscar.Im.Senders.{id_of, sendoutgoing, sendincoming}
use timps.Oscar.Userinfo.{Userinfo}
use timps.Oscar.Userinfo.RoundTrip.{IsWellFormedInfo}
use timps.Oscar.Im.Relay.{handler_0007-sendincoming}
use timps.Oscar.Im.Delivery.{handler_0006-sendoutgoing}
use timps.Oscar.Flap.{Conn}
use timps.Oscar.Flap.Send.{sent as sent_on}
use timps.Oscar.Snac.{open_snac}
use timps.Tlv.{getrenderedsize}
use timps.Tags.{fetch_from}

abbrev places : Places
places = record { of_tlv = λ _. 1; of_tlvs = λ _. 2; of_cookie = λ _. 3; of_info = λ _. 4 }

abbrev me : List Tag
me =
    record { owner = 9; name = screenname_tag; type = b'S'; content = Data.text (b'm' ∷ b'e' ∷ []) }
    ∷ []

abbrev cookie : List ℕ
cookie = 1 ∷ 2 ∷ 3 ∷ 4 ∷ 5 ∷ 6 ∷ 7 ∷ 8 ∷ []

abbrev snac_of : List ℕ → Snac
snac_of bs = record {
  group = 4;
  subtype = 6;
  flags = 0;
  id = 77;
  extinfo = none;
  payload = init_with bs (length bs);
}

abbrev handle : ℕ → ℕ → ℕ → Routing Table → Bool × Routing Table
handle f owner stage r = (true, r)

abbrev output : ℕ → ℕ → Routing Table → Routing Table
output f owner r = r

abbrev nobody : Table
nobody = record {
  buckets = hash_init;
  ledger = record {
    stats = record { total = 0; local = 0; peered = 0; external = 0 };
    events = [];
  };
  next_id = 0;
}

named : screenname (some me) (some 9) ≡ some (some (b'm' ∷ b'e' ∷ []))
unfolding screenname fetch
named = refl

-- The message "hi" to "you", as the packet gives it.
abbrev sent : GnrMsg
sent = record blank_msg {
  srcname = some (b'm' ∷ b'e' ∷ []);
  srcnameservice = some service;
  destname = some (b'y' ∷ b'o' ∷ b'u' ∷ []);
  destnameservice = some service;
  taglist =
      record { owner = 9; name = cookie_tag; type = b'V'; content = Data.word 3 }
      ∷ record { owner = 9; name = snacid_tag; type = b'I'; content = Data.word 77 }
      ∷ [];
}

is_hinted :
    hinted zeros (some 9) places 77 cookie (b'm' ∷ b'e' ∷ []) (b'y' ∷ b'o' ∷ b'u' ∷ []) blank_msg
    ≡ (true, sent)
unfolding hinted add ispresent
is_hinted = refl

-- The message as its sender has it.
abbrev sending : GnrMsg
sending = record sent { msgtext = some (b'h' ∷ b'i' ∷ []); msgflags = 2 }

abbrev client : Conn
client = record { nextseqnum = 5; queued = [] }

is_id : id_of (fetch sending.taglist (some 9) snacid_tag) ≡ some 77
unfolding id_of fetch fetch_from
is_id = refl

is_cookie : pointer (fetch sending.taglist (some 9) cookie_tag) ≡ some 3
unfolding fetch fetch_from
is_cookie = refl

untexted : fetch sending.taglist (some 9) msgtlv_tag ≡ none
unfolding fetch fetch_from
untexted = refl

unextra : fetch sending.taglist (some 9) extratlvs_tag ≡ none
unfolding fetch fetch_from
unextra = refl

handler_0006-sendoutgoing_example :
    (snac : Snac) × (bytes : List ℕ) × (sendoutgoing
        (λ _. true)
        zeros
        (some 9)
        (λ _. cookie)
        (λ _. [])
        (λ _. 0)
        client
        sending
      ≡ some (true, sent_on client 2 bytes))
    × (open_snac bytes (length bytes) ≡ some (some snac))
    × (handler_0006 zeros
          (some 9)
          places
          handle
          output
          (λ w. w)
          (λ t w. t)
          (λ _ _. [])
          1
          2
          100
          ([] ∷ [] ∷ [] ∷ [])
          3
          (some me)
          snac
          nobody
        ≡ send_on zeros
            (some 9)
            places
            handle
            output
            (λ w. w)
            (λ t w. t)
            (λ _ _. [])
            1
            2
            100
            ([] ∷ [] ∷ [] ∷ [])
            (b'y' ∷ b'o' ∷ b'u' ∷ [])
            (record sent {
              msgtexttype = some html;
              msgtext = some (b'h' ∷ b'i' ∷ []);
              msgflags = 2;
            })
            []
            nobody)
unfolding getrenderedsize
handler_0006-sendoutgoing_example =
    handler_0006-sendoutgoing zeros zeros-IsMalloc zeros-Grants (λ _. true) 9 (λ _. cookie)
      (λ _. []) (λ _. 0) places handle output (λ w. w) (λ t w. t) (λ _ _. []) 1 2 100
      ([] ∷ [] ∷ [] ∷ []) client sending 77 3 (b'y' ∷ b'o' ∷ b'u' ∷ []) (b'h' ∷ b'i' ∷ []) refl refl
      refl untexted unextra is_id is_cookie (omega arith) refl (omega arith)
      (omega arith, (omega arith, (omega arith, tt))) (omega arith, (omega arith, tt)) (omega arith)
      (omega arith) refl 3 me (b'm' ∷ b'e' ∷ []) nobody true sent named is_hinted (omega arith)

-- What a server tells of "me".
abbrev info : Userinfo
info = record { sn = b'm' ∷ b'e' ∷ []; evillevel = 0; tlvh = [] }

info-IsWellFormedInfo : IsWellFormedInfo info
info-IsWellFormedInfo = record {
  no_zero = (omega arith, (omega arith, tt));
  sn_fits = omega arith;
  evil_fits = omega arith;
  count_fits = omega arith;
  nodes = tt;
}

-- The message to be passed on, with its sender.
abbrev passing : GnrMsg
passing = record sending {
  taglist =
      record { owner = 9; name = srcuserinfo_tag; type = b'V'; content = Data.word 4 }
      ∷ sending.taglist;
}

reads_id : id_of (fetch passing.taglist (some 9) snacid_tag) ≡ some 77
unfolding id_of fetch fetch_from
reads_id = refl

reads_cookie : pointer (fetch passing.taglist (some 9) cookie_tag) ≡ some 3
unfolding fetch fetch_from
reads_cookie = refl

reads_info : pointer (fetch passing.taglist (some 9) srcuserinfo_tag) ≡ some 4
unfolding fetch fetch_from
reads_info = refl

reads_untexted : fetch passing.taglist (some 9) msgtlv_tag ≡ none
unfolding fetch fetch_from
reads_untexted = refl

reads_unextra : fetch passing.taglist (some 9) extratlvs_tag ≡ none
unfolding fetch fetch_from
reads_unextra = refl

-- At the other end it is from "me" to the screen name there, which is the same here, and its id has the
-- highest bit.
abbrev passed : GnrMsg
passed = record sent {
  destname = some (b'm' ∷ b'e' ∷ []);
  taglist =
      record { owner = 9; name = cookie_tag; type = b'V'; content = Data.word 3 }
      ∷ record { owner = 9; name = snacid_tag; type = b'I'; content = Data.word (77 + 2 ^ 31) }
      ∷ [];
}

passed_tags :
    hinted zeros
      (some 9)
      places
      (77 + 2 ^ 31)
      cookie
      (b'm' ∷ b'e' ∷ [])
      (b'm' ∷ b'e' ∷ [])
      blank_msg
    ≡ (true, passed)
unfolding hinted add ispresent
passed_tags = refl

handler_0007-sendincoming_example :
    (snac : Snac) × (bytes : List ℕ) × (sendincoming
        (λ _. true)
        zeros
        (some 9)
        (λ _. cookie)
        (λ _. [])
        (λ _. 0)
        (λ _. info)
        client
        passing
      ≡ some (true, sent_on client 2 bytes, record passing { msgflags = 0 }))
    × (open_snac bytes (length bytes) ≡ some (some snac))
    × (handler_0007 zeros
          (some 9)
          places
          handle
          output
          (λ w. w)
          (λ t w. t)
          (λ _ _. [])
          1
          2
          100
          ([] ∷ [] ∷ [] ∷ [])
          3
          (some me)
          snac
          nobody
        ≡ told_of zeros
            (some 9)
            places
            handle
            output
            (λ w. w)
            (λ t w. t)
            (λ _ _. [])
            1
            2
            100
            ([] ∷ [] ∷ [] ∷ [])
            info
            (record passed {
              msgtexttype = some html;
              msgtext = some (b'h' ∷ b'i' ∷ []);
              msgflags = 0;
            })
            []
            nobody)
unfolding getrenderedsize
handler_0007-sendincoming_example =
    handler_0007-sendincoming zeros zeros-IsMalloc zeros-Grants (λ _. true) 9 (λ _. cookie)
      (λ _. []) (λ _. 0) places handle output (λ w. w) (λ t w. t) (λ _ _. []) 1 2 100
      ([] ∷ [] ∷ [] ∷ []) (λ _. info) client passing 77 3 4 (b'h' ∷ b'i' ∷ []) refl refl
      reads_untexted reads_unextra reads_id reads_cookie reads_info (omega arith) (omega arith) refl
      info-IsWellFormedInfo (omega arith, (omega arith, tt)) (omega arith) (omega arith) refl 3 me
      (b'm' ∷ b'e' ∷ []) nobody true passed named passed_tags (omega arith)

-- Three bytes of a packet.
abbrev cut_off : Snac
cut_off = snac_of (1 ∷ 2 ∷ 3 ∷ [])

handler_0007_short_example :
    (handler_0006 zeros
        (some 9)
        places
        handle
        output
        (λ w. w)
        (λ t w. t)
        (λ _ _. [])
        1
        2
        100
        ([] ∷ [] ∷ [] ∷ [])
        3
        (some me)
        cut_off
        nobody
      ≡ done (error, nobody))
    × (handler_0007 zeros
          (some 9)
          places
          handle
          output
          (λ w. w)
          (λ t w. t)
          (λ _ _. [])
          1
          2
          100
          ([] ∷ [] ∷ [] ∷ [])
          3
          (some me)
          cut_off
          nobody
        ≡ fault)
unfolding init_with
handler_0007_short_example =
    handler_0007_short zeros zeros-IsMalloc zeros-Grants (some 9) places handle output (λ w. w)
      (λ t w. t) (λ _ _. []) 1 2 100 ([] ∷ [] ∷ [] ∷ []) 3 me cut_off nobody (b'm' ∷ b'e' ∷ [])
      named (init_with-IsValid (1 ∷ 2 ∷ 3 ∷ []) 3 (omega arith) (omega arith)) (omega arith)
