-- ===== src/Cli/Draft/Spawns.antt =====
-- src/cli/draft.rs: which children `owl draft` starts.
use Prim.Native.String.{◌++◌ as append}
use owlpost.Prelude.{
  String, ◌≡◌, ◌⊎◌, inl, inr, refl, sym, ap, Option, none, some, [], ◌∷◌, ◌++◌, eq_iff, arith,
  Bool-cases,
}
use owlpost.Prelude.Results
use owlpost.Prelude.Results.{
  Result, ok, err, >>=-eq-ok, ok_or-eq-ok, refuse_if-eq-ok, ok_or, ok-injective,
}
use owlpost.Prelude.Exec.{continue-state, lift}
use owlpost.Record.{Record, inbox}
use owlpost.Config.{Config, Tool}
use owlpost.Config
use owlpost.Error.{Error}
use owlpost.Envelope.{Payload, Kind}
use owlpost.External.{External}
use owlpost.Spool.{get, put}
use owlpost.Spool.Files.{Codec}
use owlpost.Answer.{payload_of}
use owlpost.Answer.Home.{Home, on_spool}
use owlpost.Answer.Draft.{draft_in}
use owlpost.Answer.Send.{existing_answer}
use owlpost.Redact.{Patterns}
use owlpost.Content.{Sources, request_of, resolve}
use owlpost.Tools.{System, Spawn, Call, call_of, lookup_tool, spawn_of, cwd_of, run_spawned}
use owlpost.Prelude.Chars.{is_empty}
use owlpost.Cli.{inbox_record}
use owlpost.Cli.Draft.{
  DraftOpts, Drafting, Desk, kind_gate, state_gate, unanswered, store_drafted, draft_content,
  draft_tool, draft_question, draft_kind, run, at_home, question_draft, is_stored, tool_run,
}

-- A record may be drafted: it is in the inbox, in one of two states, with no spooled answer.
pub record MayDraft {B : Type 0} ⦃e : External⦄ ⦃c : Codec B⦄ (id : String) (h : Home B)
    (payload : Payload) : Type 0 where
  pub rec : Record
  pub held : get inbox id h.disk ≡ ok (some rec)
  pub parsed : payload_of id rec ≡ ok payload
  pub allowed : (rec.state ≡ "pending") ⊎ (rec.state ≡ "drafted")
  pub unsent : existing_answer id h.disk ≡ ok none

-- A child is the registered tool that a call names: the program and its arguments are those of the
-- settings, and what the peer sent goes to the standard input.
pub record IsRegistered ⦃w : System⦄ (config : Config) (payload : Payload) (child : Spawn)
    : Type 0 where
  pub call : Call
  pub tool : Tool
  pub called : call_of payload ≡ ok call
  pub registered : Config.get call.tool config.responder.tools ≡ some tool
  pub argv : child.argv ≡ tool.argv
  pub stdin : child.stdin ≡ append (w.compact call.input) "\n"
  pub env :
      child.env
      ≡ ("OWLPOST_TOOL", "1")
        ∷ ("OWLPOST_TOOL_NAME", call.tool)
        ∷ ("OWLPOST_PEER", payload.from)
        ∷ []

-- What `owl draft` may start
pub record Permitted {B : Type 0} ⦃e : External⦄ ⦃c : Codec B⦄ ⦃w : System⦄ (config : Config)
    (id : String) (h : Home B) (child : Spawn) : Type 0 where
  pub payload : Payload
  pub may_draft : MayDraft id h payload
  pub is_registered : IsRegistered config payload child

-- A step starts no child, or one that `P` holds of.
pub data StartsOnly {B : Type 0} (P : Spawn → Type 0) (d d' : Drafting B) : Type 0 where
  no_child : d'.spawned ≡ d.spawned → StartsOnly P d d'
  one_child : (child : Spawn) → d'.spawned ≡ d.spawned ++ child ∷ [] → P child → StartsOnly P d d'

record StartsNone {B : Type 0} (d d' : Drafting B) : Type 0 where
  none_new : d'.spawned ≡ d.spawned

here : {B : Type 0} {d : Drafting B} → StartsNone d d
here = record { none_new = refl }

ok_or-is-some : {A : Type 0} (o : Option A) (e : Error) {a : A} → ok_or o e ≡ ok a → o ≡ some a
ok_or-is-some none e h = cc
ok_or-is-some (some a) e h = cc

spawn_of-IsRegistered :
    ⦃w : System⦄ (config : Config) (payload : Payload) (call : Call) (tool : Tool) (child : Spawn)
    → call_of payload ≡ ok call
    → lookup_tool config call.tool ≡ ok tool
    → spawn_of config call.tool tool call.input payload.from ≡ ok child
    → IsRegistered config payload child
unfolding spawn_of lookup_tool
spawn_of-IsRegistered ⦃w⦄ config payload call tool child called found made =
    let (cwd, at, k1) = >>=-eq-ok (cwd_of config tool) _ made in
    let (_, k2) = refuse_if-eq-ok (is_empty tool.argv) _ _ k1 in
    let same = ok-injective k2 in
    record {
      call = call;
      tool = tool;
      called = called;
      registered = ok_or-is-some _ _ found;
      argv = ap (λ (c : Spawn). c.argv) (sym same);
      stdin = ap (λ (c : Spawn). c.stdin) (sym same);
      env = ap (λ (c : Spawn). c.env) (sym same);
    }

inbox_record-eq-ok :
    (id : String) (r : Result Error (Option Record)) {rec : Record}
    → inbox_record id r ≡ ok rec
    → r ≡ ok (some rec)
inbox_record-eq-ok id (ok none) h = cc
inbox_record-eq-ok id (ok (some rec)) h = cc
inbox_record-eq-ok id (err e) h = cc

state_gate-eq-ok :
    (state : String) → state_gate state ≡ ok tt → (state ≡ "pending") ⊎ (state ≡ "drafted")
unfolding state_gate
state_gate-eq-ok state h = ground (arith, eq_iff state "pending", eq_iff state "drafted")

existing-eq-ok :
    (r : Result Error (Option (String × String))) → Results.◌>>=◌ r unanswered ≡ ok tt → r ≡ ok none
existing-eq-ok (ok none) h = refl
existing-eq-ok (ok (some found)) h = cc
existing-eq-ok (err e) h = cc

module _ {B : Type 0} ⦃e : External⦄ ⦃c : Codec B⦄ ⦃w : System⦄ ⦃s : Sources⦄ ⦃p : Patterns⦄ where
  store_drafted-StartsNone :
      (id : String) (rec : Record) (d : Drafting B) → StartsNone d (store_drafted id rec d).1
  unfolding store_drafted
  store_drafted-StartsNone id rec d =
      continue-state (StartsNone d) (at_home (on_spool (put inbox id rec)) d) _
        (record { none_new = refl }) (λ _ _. record { none_new = refl })

  draft_content-StartsNone :
      (desk : Desk) (config : Config) (id : String) (rec : Record) (payload : Payload)
      (d : Drafting B)
      → StartsNone d (draft_content desk config id rec payload d).1
  unfolding draft_content
  draft_content-StartsNone desk config id rec payload d =
      continue-state (StartsNone d) (lift (request_of payload) d) _ here (λ request _.
        continue-state (StartsNone d) (lift (resolve config request) d) _ here
          (λ _ _. store_drafted-StartsNone id _ d))

  draft_question-StartsNone :
      (desk : Desk) (config : Config) (opts : DraftOpts) (id : String) (rec : Record)
      (payload : Payload) (d : Drafting B)
      → StartsNone d (draft_question desk config opts id rec payload d).1
  unfolding draft_question
  draft_question-StartsNone desk config opts id rec payload d = elim (Bool-cases opts.prompt) [
    | inl printing ↦
        rw printing
          (continue-state (StartsNone d) (lift (desk.prompt_of payload) d) _ here (λ _ _. here))
    | inr drafting ↦ rw drafting (
        continue-state (StartsNone d) (lift (question_draft desk config opts id rec) d) _ here
          (λ found _.
            continue-state (StartsNone d)
              (lift (Results.◌>>=◌ (draft_in found.0.draft) is_stored) d) _ here
              (λ _ _.
                continue-state (StartsNone d) (store_drafted id found.0 d) _
                  (store_drafted-StartsNone id found.0 d)
                  (λ _ _. store_drafted-StartsNone id found.0 d))))
  ]

  draft_tool-StartsOnly :
      (desk : Desk) (config : Config) (id : String) (rec : Record) (payload : Payload)
      (d : Drafting B)
      → StartsOnly (IsRegistered config payload) d (draft_tool desk config id rec payload d).1
  unfolding draft_tool
  draft_tool-StartsOnly desk config id rec payload d =
      continue-state (StartsOnly (IsRegistered config payload) d) (lift (call_of payload) d) _
        (no_child refl)
        (λ call called.
          continue-state (StartsOnly (IsRegistered config payload) d)
            (lift (lookup_tool config call.tool) d) _ (no_child refl)
            (λ tool found.
              continue-state (StartsOnly (IsRegistered config payload) d)
                (lift (spawn_of config call.tool tool call.input payload.from) d) _ (no_child refl)
                (λ child made.
                  let registered =
                    spawn_of-IsRegistered config payload call tool child called found made in
                  continue-state (StartsOnly (IsRegistered config payload) d)
                    (lift (run_spawned config call.tool tool desk.elapsed child)
                      (record d { spawned = d.spawned ++ child ∷ [] }))
                    _ (one_child child refl registered)
                    (λ run _.
                      one_child child
                        (store_drafted-StartsNone id (tool_run desk.now run rec)
                          (record d { spawned = d.spawned ++ child ∷ [] })).none_new
                        registered))))

  -- `draft_kind` starts a child for a tool call alone.
  draft_kind-StartsOnly :
      (kind : Kind) (desk : Desk) (config : Config) (opts : DraftOpts) (id : String) (rec : Record)
      (payload : Payload) (d : Drafting B)
      → StartsOnly
          (IsRegistered config payload)
          d
          (draft_kind kind desk config opts id rec payload d).1
  draft_kind-StartsOnly Kind.question desk config opts id rec payload d =
      no_child (draft_question-StartsNone desk config opts id rec payload d).none_new
  draft_kind-StartsOnly Kind.answer desk config opts id rec payload d =
      no_child (draft_question-StartsNone desk config opts id rec payload d).none_new
  draft_kind-StartsOnly Kind.content desk config opts id rec payload d =
      no_child (draft_content-StartsNone desk config id rec payload d).none_new
  draft_kind-StartsOnly Kind.content_reply desk config opts id rec payload d =
      no_child (draft_question-StartsNone desk config opts id rec payload d).none_new
  draft_kind-StartsOnly Kind.tool_call desk config opts id rec payload d =
      draft_tool-StartsOnly desk config id rec payload d
  draft_kind-StartsOnly Kind.tool_reply desk config opts id rec payload d =
      no_child (draft_question-StartsNone desk config opts id rec payload d).none_new

  StartsOnly-map :
      {P R : Spawn → Type 0} (d d' : Drafting B)
      → ((child : Spawn) → P child → R child)
      → StartsOnly P d d'
      → StartsOnly R d d'
  StartsOnly-map d d' f (no_child e) = no_child e
  StartsOnly-map d d' f (one_child child e h) = one_child child e (f child h)

  -- `owl draft` starts at most one child. It starts one only for a tool call of the inbox that is
  -- `pending` or `drafted` and has no spooled answer; the child is then the tool that the settings
  -- register under the name in the call, with their arguments, and the input goes to its standard
  -- input.
  pub run-StartsOnly :
      (desk : Desk) (config : Config) (opts : DraftOpts) (id : String) (d : Drafting B)
      → StartsOnly (Permitted config id d.home) d (run desk config opts id d).1
  unfolding run
  run-StartsOnly desk config opts id d =
      continue-state (StartsOnly (Permitted config id d.home) d)
        (lift (inbox_record id (get inbox id d.home.disk)) d) _ (no_child refl)
        (λ rec found.
          continue-state (StartsOnly (Permitted config id d.home) d) (lift (payload_of id rec) d) _
            (no_child refl)
            (λ payload parsed.
              continue-state (StartsOnly (Permitted config id d.home) d)
                (lift (kind_gate payload.kind opts) d) _ (no_child refl)
                (λ _ _.
                  continue-state (StartsOnly (Permitted config id d.home) d)
                    (lift (state_gate rec.state) d) _ (no_child refl)
                    (λ _ allowed.
                      continue-state (StartsOnly (Permitted config id d.home) d)
                        (lift (Results.◌>>=◌ (existing_answer id d.home.disk) unanswered) d) _
                        (no_child refl)
                        (λ _ unsent.
                          StartsOnly-map d _
                            (λ child registered. record {
                              payload = payload;
                              may_draft = record {
                                rec = rec;
                                held = inbox_record-eq-ok id _ found;
                                parsed = parsed;
                                allowed = state_gate-eq-ok rec.state allowed;
                                unsent = existing-eq-ok _ unsent;
                              };
                              is_registered = registered;
                            })
                            (draft_kind-StartsOnly payload.kind desk config opts id rec payload
                              d))))))
