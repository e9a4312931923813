-- ===== src/Safety/Session.antt =====
-- libnpfs/fcall.c: the references of np_version and np_auth.
use npfs.Prelude.{
  ap, ◌+◌, is_zero, ltb, inl, inr, ◌∙◌, ◌&&◌, ap, if◌then◌else◌, ◌≡◌, refl, sym, Bool, true, false,
  Option, none, some, String, ℕ,
}
use npfs.Types.{blank, Npqid, Npstr, Npfcall}
use npfs.State.{Ptr, Event, Env, St}
use npfs.State.Returns.{Returns, returns, Returns-bind, Returns-mono, Returns-if}
use npfs.Safety.Relies.{Versions, Auths, Memory}
use npfs.Safety.Grows.{Safe, SafeBut-Grows, Grows-trans}
use npfs.Safety.Contract.{call_rc-Calm, call_rc-Calm, call-Calm, Contract, live_one, event_fids}
use npfs.Safety.Keeps.{Keeps-werror, Keeps-adjust}
use npfs.Safety.Fids.{some≢none, Done, Done-none, some≢none, fail-Done}
use npfs.Types.{blank}
use npfs.Constants.{iohdrsz, rread, rauth, no_auth, eio, eio, rread}
use npfs.Safety.Actions.{np_malloc-Calm, np_werror-Calm, np_malloc-Calm}
use npfs.Fcall.Reply.{create_reply, np_create_rauth, has_type, fail, create_reply}
use npfs.Fidpool.{np_fid_decref, np_fid_decref}
use npfs.Safety.Actions.{np_fid_incref-Incref}
use npfs.Safety.Pool.{Finds, np_fid_find-Finds}
use npfs.Safety.Decref.{np_fid_decref-Drops}
use npfs.Safety.Pool.{CreatedIf, np_fid_create-Created}
use npfs.Fcall.Session.{
  auth_as, auth_made, np_version, auth_started, start_auth, auth_user, auth_done, auth_found,
  np_auth,
}
use npfs.Safety.Made.{Made, Made-closed, Made-live, Made-Created, dup_aname-Keeps, find_user-Keeps}

module _ (env : Env) (c : Contract env) (s : St) (v : Safe s) where
  pub np_version-Done : Versions env → (tc : Npfcall) → Returns (Done s) (np_version env tc s)
  unfolding np_version event_fids
  np_version-Done vs tc =
      Returns-if (ltb tc.msize (iohdrsz + 1)) (fail env "msize too small" eio) _ s
        (λ _. fail-Done s env _ _ s v refl refl)
        (λ _.
          Returns-mono (call_rc-Calm env c (Event.version tc.msize tc.version) s (λ p m. absurd m))
            λ rc t (g, e). record {
              safe = SafeBut-Grows g.grows v;
              req = g.grows.req;
              workreqs = g.grows.workreqs;
              fid = inr (ap (λ r. has_type r rread) e ∙ vs s.trace tc.msize tc.version);
            })

  -- The reply to an auth is no read reply.
  abbrev Rauth : Ptr → Option Npfcall → St → Type 0
  Rauth p rc t = Made s p none t × (has_type rc rread ≡ false)

  auth_reply :
      (p : Ptr) (q : Npqid) (t : St) → Made s p none t → Returns (Rauth p) (np_create_rauth env q t)
  unfolding np_create_rauth create_reply
  auth_reply p q t o =
      Returns-bind (np_malloc-Calm env t)
        λ b u g. returns (Made-closed s p none t u g.0.grows o, kind b)
    where
      kind :
          (b : Bool)
          → has_type (if b then some (record (blank rauth) { qid = q }) else none) rread ≡ false
      kind true = refl
      kind false = refl

  fail-Rauth :
      (p : Ptr) (text : String) (code : ℕ) (t : St)
      → Made s p none t
      → Returns (Rauth p) (fail env text code t)
  unfolding fail
  fail-Rauth p text code t o =
      Returns-bind (np_werror-Calm env (some text) code t)
        λ _ u g. returns (Made-closed s p none t u g.grows o, refl)

  start_auth-Rauth :
      (auths : Auths env) (p : Ptr) (aname : Npstr) (t : St)
      → Made s p none t
      → Returns (Rauth p) (start_auth env p aname t)
  unfolding start_auth auth_started event_fids
  start_auth-Rauth auths p aname t o =
      Returns-if (env.has_auth && env.has_startauth) _ (fail env no_auth eio) t
        (λ _.
          Returns-bind (call-Calm env c (Event.startauth p aname) t (live_one t p o.live))
            λ a u (g, e).
              let o' = Made-closed s p none t u g.grows o in
              Returns-if (is_zero a.ret) (fail env no_auth eio) _ u (λ _. fail-Rauth p _ _ u o')
                λ _. rw (e, auths t.trace p aname) (auth_reply p _ u o'))
        (λ _. fail-Rauth p _ _ t o)

  auth_user-Rauth :
      (auths : Auths env) (m : Memory env) (tc : Npfcall) (p : Ptr) (t : St)
      → Made s p none t
      → Returns (Rauth p) (auth_user env tc p t)
  unfolding auth_user auth_as
  auth_user-Rauth auths m tc p t o =
      Returns-bind ((find_user-Keeps env c m s (Made s p none) (Made-closed s p none) tc).at t o)
        user
    where
      user : (w : Option Ptr) (x : St) → Made s p none x → Returns (Rauth p) (auth_as env tc p w x)
      user none x o' = fail-Rauth p _ _ x o'
      user (some i) x o' =
          Returns-bind
            ((dup_aname-Keeps env c m s (Made s p none) (Made-closed s p none) tc.aname).at x o')
            λ a y o1.
              Returns-bind
                ((Keeps-adjust (Made-closed s p none) p _ (λ g. refl) (λ g. refl)
                    (Made-live s p none)).at
                  y o1)
                λ _ z o2. start_auth-Rauth auths p a z o2

  -- The reference of the request goes where there is no reply.
  auth_done-Done :
      (p : Ptr) (rc : Option Npfcall) (t : St)
      → s.rfid ≡ none
      → Rauth p rc t
      → Returns (Done s) (auth_done env (some p) rc t)
  unfolding auth_done
  auth_done-Done p none t none_yet (o, h) =
      Returns-bind
        (np_fid_decref-Drops env c p t o.safe o.live (inl (λ e. some≢none p (sym e ∙ o.rfid))))
        λ _ u (v', d). returns (Done-none s v' (d.req ∙ o.req) (d.workreqs ∙ o.workreqs))
  auth_done-Done p (some rc) t none_yet (o, h) =
      returns (record { safe = o.safe; req = o.req; workreqs = o.workreqs; fid = inr h })

  auth_found-Done :
      (auths : Auths env) (m : Memory env) (tc : Npfcall) (p : Option Ptr) (t : St)
      → s.rfid ≡ none
      → Finds tc.afid s p t
      → Returns (Done s) (auth_found env tc p t)
  unfolding auth_found auth_made auth_done np_fid_decref
  auth_found-Done auths m tc (some p) t none_yet f =
      let o : Made s p none t = record {
        safe = SafeBut-Grows f.grows v;
        live = (f.found p refl).0;
        rfid = f.grows.rfid ∙ none_yet;
        req = f.grows.req;
        workreqs = f.grows.workreqs;
      } in
      Returns-bind ((Keeps-werror (Made-closed s p none) env _ _).at t o)
        λ _ u o'. auth_done-Done p none u none_yet (o', refl)
  auth_found-Done auths m tc none t none_yet f =
      Returns-bind (np_fid_create-Created env tc.afid t (SafeBut-Grows f.grows v) (f.absent refl))
        made
    where
      made :
          (q : Option Ptr) (u : St)
          → CreatedIf tc.afid t q u
          → Returns (Done s) (auth_made env tc q u)
      made none u g = returns (
          Done-none s (SafeBut-Grows (Grows-trans f.grows g) v) (g.req ∙ f.grows.req)
            (g.workreqs ∙ f.grows.workreqs))
      made (some p) u d = Returns-bind (np_fid_incref-Incref u p (_, d.made)) λ _ w i.
          Returns-bind
            (auth_user-Rauth auths m tc p w (Made-Created s p tc.afid t u none_yet f.grows d w i))
            λ rc x r. auth_done-Done p rc x none_yet r

  pub np_auth-Done :
      Auths env → Memory env → (tc : Npfcall) → s.rfid ≡ none → Returns (Done s) (np_auth env tc s)
  unfolding np_auth
  np_auth-Done auths m tc none_yet =
      Returns-bind (np_fid_find-Finds tc.afid s v.pool)
        λ p t f. auth_found-Done auths m tc p t none_yet f
