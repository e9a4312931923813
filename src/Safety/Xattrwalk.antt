-- ===== src/Safety/Xattrwalk.antt =====
-- libnpfs/fcall.c: the references of the handler that makes a fid of an extended attribute.
use npfs.Prelude.{refl, Option, none, some}
use npfs.Types.{Npfcall}
use npfs.State.{Ptr, Event, Env, St}
use npfs.State.Returns.{Returns, Returns-bind}
use npfs.Safety.Grows.{Safe}
use npfs.Safety.Contract.{Contract, live_two, AllLive, event_fids}
use npfs.Safety.Keeps.{
  Keeps-user_incref, Keeps-pure, Keeps-if, Keeps-load, Keeps-adjust, Keeps-fail, Keeps-call_rc,
}
use npfs.Safety.Fids.{Own, Own-closed, Own-live, Done, with_fid-Done, Keeps-Done}
use npfs.Constants.{rxattrwalk}
use npfs.Fcall.Reply.{has_type}
use npfs.Safety.Actions.{np_fid_incref-Incref}
use npfs.Safety.Pool.{Finds, np_fid_find-Finds}
use npfs.Safety.Pool.{CreatedIf, np_fid_create-Created}
use npfs.Fcall.Walk.{
  xattrwalk_asked, walk_done, np_xattrwalk_new, xattrwalk_made, xattrwalk_found, np_xattrwalk,
}
use npfs.Safety.NewFid.{
  Fresh, Walking, Fresh-closed, Fresh-Created, Fresh-live, Fresh-live_new, Fresh-Incref,
  Walking-closed, Walking-live, walk_done-Done,
}

module _ (env : Env) (c : Contract env) (s : St) (v : Safe s) where
  xattrwalk_new-Done :
      (tc : Npfcall) (p q : Ptr) (t : St)
      → Fresh s p q t
      → Returns (Done s) (np_xattrwalk_new env tc p q t)
  unfolding np_xattrwalk_new xattrwalk_asked walk_done event_fids
  xattrwalk_new-Done tc p q t o =
      Returns-bind ((Keeps-load (Fresh-closed s p q) p (Fresh-live s p q)).at t o) λ f u a.
        Returns-bind ((Keeps-user_incref (Fresh-closed s p q) f.user).at u a) λ _ w b.
          Returns-bind
            ((Keeps-adjust (Fresh-closed s p q) q _ (λ g. refl) (λ g. refl)
                (Fresh-live_new s p q)).at
              w b)
            λ _ x d.
              Returns-bind (np_fid_incref-Incref x q (Fresh-live_new s p q x d))
                λ _ y i. asked y (Fresh-Incref s p q x y d i)
    where
      on_two : (y : St) → Walking s p q y → AllLive y (event_fids (Event.xattrwalk p q tc.name))
      on_two y o' = live_two y p q (Own-live s p _ y o'.own) o'.live

      asked : (y : St) → Walking s p q y → Returns (Done s) (xattrwalk_asked env tc p q y)
      asked y o' =
          Returns-bind
            ((Keeps-call_rc (Walking-closed s p q) env c (Event.xattrwalk p q tc.name) on_two).at y
              o')
            λ rc z x.
              Returns-bind
                ((Keeps-if (has_type rc rxattrwalk) _ _
                    (Keeps-adjust (Walking-closed s p q) q _ (λ g. refl) (λ g. refl)
                      (Walking-live s p q))
                    (Keeps-pure tt)).at
                  z x)
                λ _ k w. walk_done-Done env c s p q rc k w

  xattrwalk_made-Done :
      (tc : Npfcall) (p : Ptr) (q : Option Ptr) (t u : St)
      → Own s p (some p) t
      → CreatedIf tc.newfid t q u
      → Returns (Done s) (xattrwalk_made env tc p q u)
  unfolding xattrwalk_made
  xattrwalk_made-Done tc p none t u o d =
      Keeps-Done s p _ (Keeps-fail (Own-closed s p _) env _ _) u (Own-closed s p _ t u d o)
  xattrwalk_made-Done tc p (some q) t u o d =
      xattrwalk_new-Done tc p q u (Fresh-Created s p q _ t u o d)

  xattrwalk_found-Done :
      (tc : Npfcall) (p : Ptr) (q : Option Ptr) (t u : St)
      → Own s p (some p) t
      → Finds tc.newfid t q u
      → Returns (Done s) (xattrwalk_found env tc p q u)
  unfolding xattrwalk_found
  xattrwalk_found-Done tc p none t u o f =
      let o' = Own-closed s p _ t u f.grows o in
      Returns-bind (np_fid_create-Created env tc.newfid u o'.safe (f.absent refl))
        λ q w d. xattrwalk_made-Done tc p q u w o' d
  xattrwalk_found-Done tc p (some q) t u o f =
      Keeps-Done s p _ (Keeps-fail (Own-closed s p _) env _ _) u (Own-closed s p _ t u f.grows o)

  pub np_xattrwalk-Done : (tc : Npfcall) → Returns (Done s) (np_xattrwalk env tc s)
  unfolding np_xattrwalk
  np_xattrwalk-Done tc = with_fid-Done s env _ _ v λ p t o.
      Returns-bind (np_fid_find-Finds tc.newfid t o.safe.pool)
        λ q u x. xattrwalk_found-Done tc p q t u o x
