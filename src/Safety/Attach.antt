-- ===== src/Safety/Attach.antt =====
-- libnpfs/fcall.c: the references of np_attach.
use npfs.Prelude.{ap, is_zero, inl, ◌≢◌, ◌∙◌, ap, ◌≡◌, refl, sym, subst, Option, none, some}
use npfs.Types.{Npstr, Npfcall}
use npfs.State.{Ptr, Event, Env, St, pure, ◌>>◌}
use npfs.State.Returns.{Returns, returns, Returns-bind, Returns-mono}
use npfs.Safety.Relies.{Memory}
use npfs.Safety.Grows.{IsLive-shape, Safe, SafeBut-Grows, Grows, Grows-trans, IsLive}
use npfs.Safety.Contract.{Contract, live_two, AllLive, live_one, event_fids}
use npfs.Safety.Keeps.{
  Keeps, IsClosed, Keeps-pure, Keeps-bind, Keeps-then, Keeps-if, Keeps-load, Keeps-adjust,
  Keeps-fail, Keeps-call, Keeps-call_rc,
}
use npfs.Safety.Fids.{some≢none, Done, Done-none, some≢none, fail-Done}
use npfs.State.Mem.{np_fid_incref}
use npfs.Fidpool.{np_fid_decref, np_fid_decref}
use npfs.Safety.Actions.{np_fid_incref-Incref, Incref}
use npfs.Safety.Pool.{Finds, np_fid_find-Finds}
use npfs.Safety.Decref.{np_fid_decref-Drops}
use npfs.Safety.Pool.{CreatedIf, np_fid_create-Created}
use npfs.Fidpool.Chains.{fid_of, number}
use npfs.Fcall.Session.{
  attach_as, attach_made, attach_with, attach_call, auth_checked, check_auth, attach_user,
  attach_auth, attach_found, np_attach,
}
use npfs.Safety.Made.{Made, Made-closed, Made-Created, Made-set, dup_aname-Keeps, find_user-Keeps}

-- The new fid, in the request, and the auth fid, which is another one.
record Attaching (s0 : St) (p : Ptr) (a : Option Ptr) (s : St) : Type 0 where
  made : Made s0 p (some p) s
  auth : (q : Ptr) → a ≡ some q → IsLive s.heap q × (q ≢ p)

module _ (s : St) (p : Ptr) (a : Option Ptr) where
  Attaching-closed : IsClosed (Attaching s p a)
  Attaching-closed t u g o = record {
    made = Made-closed s p _ t u g o.made;
    auth = λ q e. (IsLive-shape u.heap t.heap q (sym (g.shape q)) (o.auth q e).0, (o.auth q e).1);
  }

  Attaching-live : (t : St) → Attaching s p a t → IsLive t.heap p
  Attaching-live t o = o.made.live

module _ (env : Env) (c : Contract env) (memory : Memory env) (s : St) (v : Safe s) where
  on_fids :
      (tc : Npfcall) (p : Ptr) (a : Option Ptr) (t : St)
      → Attaching s p a t
      → AllLive t (event_fids (Event.attach p a tc.uname tc.aname))
  unfolding event_fids
  on_fids tc p none t o = live_one t p o.made.live
  on_fids tc p (some q) t o = live_two t p q o.made.live (o.auth q refl).0

  on_checked :
      (n : Npstr) (p : Ptr) (a : Option Ptr) (t : St)
      → Attaching s p a t
      → AllLive t (event_fids (Event.checkauth p a n))
  unfolding event_fids
  on_checked n p none t o = live_one t p o.made.live
  on_checked n p (some q) t o = live_two t p q o.made.live (o.auth q refl).0

  attach_call-Keeps :
      (tc : Npfcall) (p : Ptr) (a : Option Ptr) → Keeps (Attaching s p a) (attach_call env tc p a)
  unfolding attach_call
  attach_call-Keeps tc p a = Keeps-call_rc (Attaching-closed s p a) env c _ (on_fids tc p a)

  check_auth-Keeps :
      (tc : Npfcall) (p : Ptr) (a : Option Ptr) (n : Npstr)
      → Keeps (Attaching s p a) (check_auth env tc p a n)
  unfolding check_auth auth_checked
  check_auth-Keeps tc p a n =
      Keeps-if _ _ _
        (Keeps-bind _ _
          (Keeps-call (Attaching-closed s p a) env c (Event.checkauth p a n) (on_checked n p a))
          (λ o. Keeps-if (is_zero o.ret) _ _ (Keeps-pure none) (attach_call-Keeps tc p a)))
        (attach_call-Keeps tc p a)

  attach_as-Keeps :
      (tc : Npfcall) (p : Ptr) (a : Option Ptr) (u : Option Ptr)
      → Keeps (Attaching s p a) (attach_as env tc p a u)
  unfolding attach_as
  attach_as-Keeps tc p a none = Keeps-fail (Attaching-closed s p a) env _ _
  attach_as-Keeps tc p a (some u) =
      Keeps-then _ _
        (Keeps-adjust (Attaching-closed s p a) p _ (λ g. refl) (λ g. refl) (Attaching-live s p a))
        (Keeps-bind _ _ (dup_aname-Keeps env c memory s _ (Attaching-closed s p a) tc.aname)
          (λ n. check_auth-Keeps tc p a n))

  attach_user-Keeps :
      (tc : Npfcall) (p : Ptr) (a : Option Ptr) → Keeps (Attaching s p a) (attach_user env tc p a)
  unfolding attach_user
  attach_user-Keeps tc p a =
      Keeps-bind _ _ (find_user-Keeps env c memory s _ (Attaching-closed s p a) tc)
        (λ u. attach_as-Keeps tc p a u)

  auth_incref-Keeps : (p q : Ptr) → Keeps (Attaching s p (some q)) (np_fid_incref q)
  auth_incref-Keeps p q = record {
    at = λ t o.
        Returns-mono (np_fid_incref-Incref t q (o.auth q refl).0)
          (λ _ u i. Attaching-closed s p (some q) t u i.calm.grows o);
  }

  attach_auth-Keeps :
      (tc : Npfcall) (p : Ptr) (a : Option Ptr) → Keeps (Attaching s p a) (attach_auth env tc p a)
  unfolding attach_auth
  attach_auth-Keeps tc p none =
      Keeps-if _ _ _ (Keeps-fail (Attaching-closed s p none) env _ _) (attach_user-Keeps tc p none)
  attach_auth-Keeps tc p (some q) =
      Keeps-bind _ _ (Keeps-load (Attaching-closed s p (some q)) q (λ t o. (o.auth q refl).0)) λ f.
        Keeps-if _ _ _ (Keeps-then _ _ (auth_incref-Keeps p q) (attach_user-Keeps tc p (some q)))
          (Keeps-fail (Attaching-closed s p (some q)) env _ _)

  attach_with-Done :
      (tc : Npfcall) (p : Ptr) (a : Option Ptr) (t : St)
      → Attaching s p a t
      → Returns (Done s) (attach_with env tc p a t)
  unfolding attach_with np_fid_decref
  attach_with-Done tc p a t o =
      Returns-bind ((attach_auth-Keeps tc p a).at t o) λ rc u o'. dropped a rc u o'
    where
      kept :
          (rc : Option Npfcall) (u : St)
          → Safe u
          → u.rfid ≡ some p
          → u.req ≡ s.req
          → u.workreqs ≡ s.workreqs
          → Done s rc u
      kept rc u v' r q w = record {
        safe = v';
        req = q;
        workreqs = w;
        fid = inl (λ e. some≢none p (sym r ∙ e));
      }

      dropped :
          (a : Option Ptr) (rc : Option Npfcall) (u : St)
          → Attaching s p a u
          → Returns (Done s) ((np_fid_decref env a >> pure rc) u)
      dropped none rc u o' =
          returns (kept rc u o'.made.safe o'.made.rfid o'.made.req o'.made.workreqs)
      dropped (some q) rc u o' =
          let (live, ne) = o'.auth q refl in
          Returns-bind
            (np_fid_decref-Drops env c q u o'.made.safe live
              (inl (λ e. ne (let same : some p ≡ some q = sym o'.made.rfid ∙ e in cc))))
            λ _ w (v', d). returns (
              kept rc w v' (d.rfid ∙ o'.made.rfid) (d.req ∙ o'.made.req)
                (d.workreqs ∙ o'.made.workreqs))

  attach_made-Done :
      (tc : Npfcall) (p : Option Ptr) (t u : St)
      → tc.afid ≢ tc.fid
      → s.rfid ≡ none
      → Grows s t
      → CreatedIf tc.fid t p u
      → Returns (Done s) (attach_made env tc p u)
  unfolding attach_made
  attach_made-Done tc none t u ne none_yet g d =
      returns
        (Done-none s (SafeBut-Grows (Grows-trans g d) v) (d.req ∙ g.req) (d.workreqs ∙ g.workreqs))
  attach_made-Done tc (some p) t u ne none_yet g d =
      Returns-bind (np_fid_incref-Incref u p (_, d.made)) λ _ w i.
        let o = Made-set s p none w (Made-Created s p tc.fid t u none_yet g d w i) in
        Returns-bind (np_fid_find-Finds tc.afid (record w { rfid = some p }) o.safe.pool) λ a x f.
          attach_with-Done tc p a x (record {
            made = Made-closed s p _ _ x f.grows o;
            auth = λ q e.
                let (live, found) = f.found q e in
                (live, λ same. ne (numbers x w q f i found same));
          })
    where
      numbers :
          (x w : St) (q : Ptr) {a : Option Ptr}
          → Finds tc.afid (record w { rfid = some p }) a x
          → Incref p u w
          → fid_of x.heap q ≡ some tc.afid
          → q ≡ p
          → tc.afid ≡ tc.fid
      numbers x w q f i found same =
          let here : fid_of x.heap p ≡ some tc.fid =
            f.grows.shape p ∙ i.calm.grows.shape p ∙ ap number d.made in
          let there : fid_of x.heap p ≡ some tc.afid =
            subst (λ r. fid_of x.heap r ≡ some tc.afid) same found in
          cc

  attach_found-Done :
      (tc : Npfcall) (p : Option Ptr) (t : St)
      → tc.afid ≢ tc.fid
      → s.rfid ≡ none
      → Finds tc.fid s p t
      → Returns (Done s) (attach_found env tc p t)
  unfolding attach_found
  attach_found-Done tc (some p) t ne none_yet f =
      fail-Done s env _ _ t (SafeBut-Grows f.grows v) f.grows.req f.grows.workreqs
  attach_found-Done tc none t ne none_yet f =
      Returns-bind (np_fid_create-Created env tc.fid t (SafeBut-Grows f.grows v) (f.absent refl))
        λ p u d. attach_made-Done tc p t u ne none_yet f.grows d

  -- An auth fid that is the new fid itself is left out.
  pub np_attach-Done :
      (tc : Npfcall) → tc.afid ≢ tc.fid → s.rfid ≡ none → Returns (Done s) (np_attach env tc s)
  unfolding np_attach
  np_attach-Done tc ne none_yet =
      Returns-bind (np_fid_find-Finds tc.fid s v.pool)
        λ p t f. attach_found-Done tc p t ne none_yet f
