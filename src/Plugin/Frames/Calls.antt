-- ===== src/Plugin/Frames/Calls.antt =====
-- lua/differ/sidecar/init.lua: answers and the calls of callers keep what a process was written.
use differ_nvim.Common.{
  ℕ, suc, refl, not, Option, none, some, List, [], ◌∷◌, ◌++◌, arith, if_both, if_split, eqb,
}
use differ_nvim.Plugin.State.{Outcome, Callback, Queued, Reply, Client, Shell}
use differ_nvim.Plugin.Client.{lose, dropped_by, pending_at, do_request, Spawn, start, new_client}
use differ_nvim.Plugin.Process.{outcome_of, settle_with, settle, dispatch_reply}
use differ_nvim.Plugin.Events.{Plugin, here, ask, ask_started, request_of, request, stop, owned}
use differ_nvim.Plugin.Frames.{IsSpoken, IsSpokenPair, do_request-IsSpoken, start-IsSpoken}

abbrev pub IsSpokenPlugin : Plugin → Type 0
IsSpokenPlugin (none, sh) = Unit
IsSpokenPlugin (some c, sh) = IsSpoken c

settle_with-IsSpoken :
    (o : Option Outcome) (id : ℕ) (cb : Callback) (c : Client) (sh : Shell)
    → IsSpoken c
    → IsSpokenPair (settle_with o id cb c sh)
settle_with-IsSpoken none id cb c sh spoken = record {
  down = spoken.down;
  session = spoken.session;
}
settle_with-IsSpoken (some o) id cb c sh spoken = record {
  down = spoken.down;
  session = spoken.session;
}

settle-IsSpoken :
    (r : Reply) (o : Option Callback) (c : Client) (sh : Shell)
    → IsSpoken c
    → IsSpokenPair (settle r o c sh)
settle-IsSpoken r none c sh spoken = spoken
settle-IsSpoken r (some cb) c sh spoken = settle_with-IsSpoken (outcome_of r) r.id cb c sh spoken

pub dispatch_reply-IsSpoken :
    (r : Option Reply) (c : Client) (sh : Shell) → IsSpoken c → IsSpokenPair (dispatch_reply r c sh)
dispatch_reply-IsSpoken none c sh spoken = spoken
dispatch_reply-IsSpoken (some r) c sh spoken =
    settle-IsSpoken r (pending_at r.id c.pending) c sh spoken

ask-IsSpoken : (q : Queued) (c : Client) (sh : Shell) → IsSpoken c → IsSpokenPair (ask q c sh)
ask-IsSpoken q c sh spoken =
    if_split IsSpokenPair c.ready (do_request q c, lose (dropped_by q c) sh)
      (record c { queue = c.queue ++ q ∷ [] }, sh)
      (λ is_ready. do_request-IsSpoken q c is_ready spoken)
      (λ waits. record { down = spoken.down; session = spoken.session })

ask_started-IsSpoken :
    (q : Queued) (s : Client × Option (List ℕ)) (sh : Shell)
    → IsSpoken s.0
    → IsSpokenPair (ask_started q s sh)
ask_started-IsSpoken q (c, none) sh spoken = ask-IsSpoken q c sh spoken
ask_started-IsSpoken q (c, some why) sh spoken = spoken

request_of-IsSpoken :
    (spawn : Spawn) (q : Queued) (c : Client) (sh : Shell)
    → IsSpoken c
    → IsSpokenPair (request_of spawn q c sh)
unfolding request_of
request_of-IsSpoken spawn q c sh spoken =
    if_split IsSpokenPair (not c.running) (ask_started q (start spawn c) sh) (ask q c sh)
      (λ stands.
        ask_started-IsSpoken q (start spawn c) sh
          (start-IsSpoken spawn c (ground (arith, stands)) spoken))
      (λ runs. ask-IsSpoken q c sh spoken)

pub request-IsSpoken :
    (spawn : Spawn) (q : Queued) (p : Plugin)
    → IsSpokenPlugin p
    → IsSpokenPlugin (request spawn q p)
unfolding request new_client
request-IsSpoken spawn q (none, sh) spoken =
    request_of-IsSpoken spawn q (new_client sh.next_client)
      (record sh { next_client = suc sh.next_client })
      (record { down = λ stands. refl; session = tt })
request-IsSpoken spawn q (some c, sh) spoken = request_of-IsSpoken spawn q c sh spoken

pub stop-IsSpoken : (p : Plugin) → IsSpokenPlugin (stop p)
unfolding stop
stop-IsSpoken (none, sh) = tt
stop-IsSpoken (some c, sh) = tt

pub owned-IsSpoken :
    (g : ℕ) (f : Client → Shell → Client × Shell) (p : Plugin)
    → ((c : Client) (sh : Shell) → IsSpoken c → IsSpokenPair (f c sh))
    → IsSpokenPlugin p
    → IsSpokenPlugin (owned g f p)
owned-IsSpoken g f (none, sh) keeps spoken = tt
owned-IsSpoken g f (some c, sh) keeps spoken =
    if_both IsSpokenPlugin (eqb g c.self) (here (f c sh)) (some c, sh) (keeps c sh spoken) spoken
