-- ===== src/Safety/Walk.antt =====
-- libnpfs/fcall.c: the references of the handlers of 9P2000.L that make a fid from another.
use npfs.Prelude.{
  take, length, ltb, ◌==◌, ◌!=◌, ◌&&◌, refl, Bool, List, [], ◌∷◌, Option, none, some, arith, ◌≢◌,
}
use npfs.Types.{Npqid, Npstr, Npfcall}
use npfs.State.{and_then, Ptr, Npfid, Event, Outcome, Env, St, M, ◌>>=◌}
use npfs.State.Returns.{Returns, Returns-bind, Returns-if}
use npfs.Safety.Relies.{Clones}
use npfs.Safety.Grows.{Safe}
use npfs.Safety.Contract.{call-Calm, Contract, live_two, event_fids}
use npfs.Safety.Keeps.{
  Keeps-werror, Keeps-rwalk, Keeps-user_incref, Keeps, Keeps-pure, Keeps-bind, Keeps-then, Keeps-if,
  Keeps-load, Keeps-adjust, Keeps-fail,
}
use npfs.Safety.Fids.{Own, Own-closed, Own-live, Done, with_fid-Done, Keeps-Done}
use npfs.Constants.{maxwelem, too_many_wnames, onotopen, bad_use_fid, eio, onotopen}
use npfs.Fcall.Reply.{fail}
use npfs.Fidpool.{np_fid_find}
use npfs.Safety.Actions.{np_fid_incref-Incref}
use npfs.Safety.Pool.{Finds, np_fid_find-Finds}
use npfs.Safety.Pool.{CreatedIf, np_fid_create-Created}
use npfs.Fcall.Walk.{
  walk_done, walk_next, walk_step, walk_names, walk_reply, walk_end, walk_from, walk_share,
  walk_cloned, walk_made, walk_found, walk_checked, np_walk,
}
use npfs.Safety.NewFid.{
  Fresh, Walking, Fresh-closed, Fresh-Created, Fresh-live, Fresh-live_new, Fresh-Incref,
  Walking-closed, Walking-live, Walking-incref, walk_done-Done, Keeps-Walking,
}

module _ (env : Env) (c : Contract env) (s : St) (v : Safe s) where
  walk_next-Keeps :
      (p q : Ptr) (more : Bool) (rest : M (List Npqid)) (qid : Npqid)
      → Keeps (Walking s p q) rest
      → Keeps (Walking s p q) (walk_next env more rest qid)
  unfolding walk_next
  walk_next-Keeps p q more rest qid h = search (Keeps-if, Keeps-pure, Keeps-bind) depth 8

  walk_step-Keeps :
      (p q : Ptr) (more : Bool) (rest : M (List Npqid)) (o : Outcome)
      → Keeps (Walking s p q) rest
      → Keeps (Walking s p q) (walk_step env q more rest o)
  unfolding walk_step
  walk_step-Keeps p q more rest o h =
      search
        (
          Keeps-if, Keeps-pure, Keeps-then, Keeps-adjust, Walking-closed, Walking-live,
          walk_next-Keeps,
        )
        depth 8

  walk_names-Keeps : (p q : Ptr) (ws : List Npstr) → Keeps (Walking s p q) (walk_names env q ws)
  unfolding walk_names event_fids
  walk_names-Keeps p q [] = Keeps-pure []
  walk_names-Keeps p q (w ∷ ws) =
      Keeps-bind _ _ (Keeps-Walking env c s p q (Event.walk q w) refl)
        (λ o. walk_step-Keeps p q _ _ o (walk_names-Keeps p q ws))

  walk_reply-Done :
      (tc : Npfcall) (p q : Ptr) (qids : List Npqid) (t : St)
      → Walking s p q t
      → Returns (Done s) (walk_reply env tc q qids t)
  unfolding walk_reply
  walk_reply-Done tc p q qids t o =
      Returns-bind ((Keeps-werror (Walking-closed s p q) env none 0).at t o) λ _ u o'.
        Returns-bind ((Keeps-if _ _ _ (Walking-incref s p q) (Keeps-pure tt)).at u o') λ _ w x.
          Returns-bind ((Keeps-rwalk (Walking-closed s p q) env (length qids) qids).at w x)
            λ rc y z. walk_done-Done env c s p q rc y z

  walk_end-Done :
      (tc : Npfcall) (p q : Ptr) (qids : List Npqid) (t : St)
      → Walking s p q t
      → Returns (Done s) (walk_end env tc q qids t)
  unfolding walk_end
  walk_end-Done tc p q qids t o =
      Returns-if ((length qids == 0) && (tc.nwname != 0)) (walk_done env (some q) none)
        (walk_reply env tc q qids) t (λ _. walk_done-Done env c s p q none t o)
        (λ _. walk_reply-Done tc p q qids t o)

  walk_rest-Done :
      (tc : Npfcall) (p q : Ptr) (t : St)
      → Walking s p q t
      → Returns
          (Done s)
          (and_then (walk_names env q (take tc.nwname tc.wnames) t) (walk_end env tc q))
  walk_rest-Done tc p q t o =
      Returns-bind ((walk_names-Keeps p q _).at t o) λ qids u o'. walk_end-Done tc p q qids u o'

  walk_share-Done :
      (tc : Npfcall) (p q : Ptr) (t : St)
      → Fresh s p q t
      → Returns (Done s) (walk_share env tc p q t)
  unfolding walk_share walk_from
  walk_share-Done tc p q t o =
      Returns-bind ((Keeps-load (Fresh-closed s p q) p (Fresh-live s p q)).at t o) λ f u a.
        Returns-bind ((Keeps-user_incref (Fresh-closed s p q) f.user).at u a) λ _ w b.
          Returns-bind
            ((Keeps-adjust (Fresh-closed s p q) q _ (λ g. refl) (λ g. refl)
                (Fresh-live_new s p q)).at
              w b)
            λ _ x d.
              Returns-bind (np_fid_incref-Incref x q (Fresh-live_new s p q x d))
                λ _ y i. walk_rest-Done tc p q y (Fresh-Incref s p q x y d i)

  walk_made-Done :
      (clones : Clones env) (tc : Npfcall) (p : Ptr) (q : Option Ptr) (t u : St)
      → Own s p (some p) t
      → CreatedIf tc.newfid t q u
      → Returns (Done s) (walk_made env tc p q u)
  unfolding walk_made walk_cloned event_fids
  walk_made-Done clones tc p none t u o d =
      Keeps-Done s p _ (Keeps-fail (Own-closed s p _) env _ _) u (Own-closed s p _ t u d o)
  walk_made-Done clones tc p (some q) t u o d =
      let fresh = Fresh-Created s p q _ t u o d in
      Returns-bind
        (call-Calm env c (Event.clone p q) u
          (live_two u p q (Fresh-live s p q u fresh) (Fresh-live_new s p q u fresh)))
        λ a w (g, e).
          rw (e, clones u.trace p q)
            (walk_share-Done tc p q w (Fresh-closed s p q u w g.grows fresh))

  walk_found-Done :
      (clones : Clones env) (tc : Npfcall) (p : Ptr) (q : Option Ptr) (t u : St)
      → Own s p (some p) t
      → Finds tc.newfid t q u
      → Returns (Done s) (walk_found env tc p q u)
  unfolding walk_found
  walk_found-Done clones tc p none t u o f =
      let o' = Own-closed s p _ t u f.grows o in
      Returns-bind (np_fid_create-Created env tc.newfid u o'.safe (f.absent refl))
        λ q w d. walk_made-Done clones tc p q u w o' d
  walk_found-Done clones tc p (some q) t u o f =
      let o' : Walking s p q u = record {
        own = Own-closed s p _ t u f.grows o;
        live = (f.found q refl).0;
      } in
      Returns-bind ((Keeps-werror (Walking-closed s p q) env _ _).at u o')
        λ _ w x. walk_done-Done env c s p q none w x

  walk_checked-Done :
      (tc : Npfcall)
      → (tc.fid ≢ tc.newfid → Clones env)
      → (p : Ptr) (f : Npfid) (t : St) → Own s p (some p) t
      → Returns (Done s) (walk_checked env tc p f t)
  unfolding walk_checked walk_from
  walk_checked-Done tc clones p f t o =
      Returns-if (f.omode != onotopen) (fail env bad_use_fid eio) _ t
        (λ _. Keeps-Done s p _ (Keeps-fail (Own-closed s p _) env _ _) t o)
        λ _.
          Returns-if (ltb maxwelem tc.nwname) (fail env too_many_wnames eio) _ t
            (λ _. Keeps-Done s p _ (Keeps-fail (Own-closed s p _) env _ _) t o)
            λ _.
              Returns-if (tc.fid != tc.newfid) (np_fid_find tc.newfid >>= walk_found env tc p)
                (walk_from env tc p) t
                (λ other.
                  Returns-bind (np_fid_find-Finds tc.newfid t o.safe.pool) λ q u x.
                    walk_found-Done (clones (λ e. ground (arith, other, e))) tc p q t u o x)
                (λ _.
                  Returns-bind
                    ((Walking-incref s p p).at t (record { own = o; live = Own-live s p _ t o }))
                    λ _ u x. walk_rest-Done tc p p u x)

  pub np_walk-Done :
      (tc : Npfcall) → (tc.fid ≢ tc.newfid → Clones env) → Returns (Done s) (np_walk env tc s)
  unfolding np_walk
  np_walk-Done tc clones = with_fid-Done s env _ _ v λ p t o.
      Returns-bind ((Keeps-load (Own-closed s p _) p (Own-live s p _)).at t o)
        λ f u o'. walk_checked-Done tc clones p f u o'
