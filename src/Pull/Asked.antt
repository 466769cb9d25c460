-- ===== src/Pull/Asked.antt =====
-- src/pull.rs and src/events.rs: what an event leaves of the record of an ask.
use owlpost.Prelude.{String, ◌≡◌, refl, ◌∙◌, false, Option, none, some, ◌==◌}
use owlpost.Json.{Value, obj, insert, get, get_str, lookup}
use owlpost.Json.Laws.{lookup-insert}
use owlpost.Record.{Record, meta_object}
use owlpost.Envelope.{Payload}
use owlpost.Events.{push}
use owlpost.External.{External}
use owlpost.Spool.Others.{Keeps}
use owlpost.Pull.{open_ask, ask_in, ask_of, asked_by}

-- The metadata agree on the fields of an ask.
record Agree (m m' : Value) : Type 0 where
  peer : get_str "peer" m ≡ get_str "peer" m'
  hash : get_str "hash" m ≡ get_str "hash" m'
  threaded : get "threaded" m ≡ get "threaded" m'

module _ ⦃e : External⦄ (id : String) (rec : Record) (m : Value) (agree : Agree m rec.meta) where
  ask_of-meta :
      (payload : Payload) (question : Option (Option (String × Option String × String)))
      → ask_of id (record rec { meta = m }) payload question ≡ ask_of id rec payload question
  ask_of-meta payload none = refl
  ask_of-meta payload (some question) = rw (agree.peer, agree.hash, agree.threaded) refl

  ask_in-meta :
      (parsed : Option Payload) → ask_in id (record rec { meta = m }) parsed ≡ ask_in id rec parsed
  ask_in-meta none = refl
  ask_in-meta (some payload) = ask_of-meta payload (asked_by payload.kind payload.body)

  open_ask-meta : open_ask (id, record rec { meta = m }) ≡ open_ask (id, rec)
  unfolding open_ask
  open_ask-meta = ask_in-meta (e.parse_payload rec.raw)

get-meta_object : (k : String) (m : Value) → lookup k (meta_object m) ≡ get k m
unfolding get meta_object lookup
get-meta_object k (obj m) = refl
get-meta_object k _ = refl

get-events :
    (k : String) (v m : Value)
    → ("events" == k) ≡ false
    → get k (obj (insert "events" v (meta_object m))) ≡ get k m
unfolding get
get-events k v m apart = lookup-insert "events" k v (meta_object m) ∙ rw apart (get-meta_object k m)

events-Agree : (v m : Value) → Agree (obj (insert "events" v (meta_object m))) m
unfolding get_str
events-Agree v m = record {
  peer = rw (get-events "peer" v m refl) refl;
  hash = rw (get-events "hash" v m refl) refl;
  threaded = get-events "threaded" v m refl;
}

-- The record is the one that the ask was written as, but for its metadata, and it is read as the same
-- open ask.
pub record IsAskOf ⦃e : External⦄ (id : String) (ask rec : Record) : Type 0 where
  pub same : record rec { meta = ask.meta } ≡ ask
  pub opens : open_ask (id, rec) ≡ open_ask (id, ask)

-- An event keeps it so.
pub push-IsAskOf :
    ⦃e : External⦄ (id : String) (ask : Record) (now kind : String) (by : Option String)
    (detail : Option Value)
    → Keeps (IsAskOf id ask) (push now kind by detail)
unfolding push
push-IsAskOf id ask now kind by detail rec kept = record {
  same = kept.same;
  opens = open_ask-meta id rec _ (events-Agree _ rec.meta) ∙ kept.opens;
}
