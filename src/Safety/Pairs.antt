-- ===== src/Safety/Pairs.antt =====
-- libnpfs/fcall.c: the references of the handlers of 9P2000.L that take two fids.
use npfs.Prelude.{
  not, Bool-cases, eq_of_==, ne_of_==, ◌⊎◌, inl, inr, ◌∙◌, has_bits, ◌==◌, ◌!=◌, ◌≡◌, refl, sym,
  subst, [], ◌∷◌, Option, none, some, ℕ,
}
use npfs.Types.{Npfcall}
use npfs.State.{Ptr, Npfid, Event, Env, St, M, ◌>>=◌}
use npfs.State.Returns.{Returns, returns, Returns-bind, Returns-if}
use npfs.State.Mem.{load}
use npfs.State.Call.{call_rc}
use npfs.Safety.Grows.{Safe, Holds, IsLive}
use npfs.Safety.Contract.{Contract, live_two, AllLive, event_fids}
use npfs.Safety.Keeps.{Keeps, IsClosed, Keeps-bind, Keeps-load, Keeps-call_rc}
use npfs.Safety.Fids.{
  Own, Own-set, some≢none, Own-closed, Own-live, Keeps-on_fid_rc, Done, Done-Own, Own-set,
  some≢none, with_fid-Done, with_ref-Done, fail-Done, Keeps-Done,
}
use npfs.Constants.{bad_use_fid, eio, not_dir, enotdir, qtdir, onotopen}
use npfs.Fcall.Reply.{fail}
use npfs.Fcall.Dirs.{
  dir_checked, np_unlinkat, second_found, with_second, np_rename, np_link, np_renameat,
}
use npfs.Safety.Actions.{np_fid_incref-Incref, Incref}
use npfs.Safety.Pool.{Finds, np_fid_find-Finds}
use npfs.Safety.Decref.{np_fid_decref-Drops}
use npfs.Safety.Drops.{Drops}
use npfs.Safety.Dirs.{dir_checked-Keeps}

-- The request's fid and a second one, each with the pool's reference and one of this request, also
-- where they are the same.
record Pair (s0 : St) (p q : Ptr) (r : Option Ptr) (s : St) : Type 0 where
  own : Own s0 p r s
  second : Holds s.heap q 2
  both : q ≡ p → Holds s.heap p 3

module _ (s : St) (p q : Ptr) where
  Pair-closed : (r : Option Ptr) → IsClosed (Pair s p q r)
  Pair-closed r t u g o = record {
    own = Own-closed s p r t u g o.own;
    second = g.holds q 2 o.second;
    both = λ e. g.holds p 3 (o.both e);
  }

  Pair-live : (r : Option Ptr) (t : St) → Pair s p q r t → IsLive t.heap q
  Pair-live r t o = (o.second.0, o.second.1)

  Pair-Incref :
      (r : Option Ptr) (t u : St) → Own s p r t → IsLive t.heap q → Incref q t u → Pair s p q r u
  Pair-Incref r t u o live i = record {
    own = Own-closed s p r t u i.calm.grows o;
    second = i.more 1 (o.safe.counted q live (some≢none q));
    both = λ e.
        subst (λ x. Holds u.heap x 3) e (i.more 2 (subst (λ x. Holds t.heap x 2) (sym e) o.two));
  }

  -- The second fid's reference goes, and the first keeps its own.
  Pair-drop : (t u : St) → Pair s p q (some p) t → Safe u → Drops q t u → Own s p (some p) u
  Pair-drop t u o v d = record {
    safe = v;
    two = elim (Bool-cases (p == q)) [
      | inl hit ↦
          let e : p ≡ q = eq_of_== p q hit in
          subst (λ x. Holds u.heap x 2) (sym e)
            (d.own 1 (subst (λ x. Holds t.heap x 3) e (o.both (sym e))))
      | inr miss ↦ d.others p 2 (ne_of_== p q miss) o.own.two
    ];
    rfid = d.rfid ∙ o.own.rfid;
    req = d.req ∙ o.own.req;
    workreqs = d.workreqs ∙ o.own.workreqs;
  }

module _ (env : Env) (c : Contract env) (s : St) (v : Safe s) where
  with_second-Done :
      (n : ℕ) (k : Ptr → M (Option Npfcall)) (p : Ptr) (r : Option Ptr)
      → ((q : Ptr) (t : St) → Pair s p q r t → Returns (λ _ u. Pair s p q (some p) u) (k q t))
      → (t : St) → Own s p r t
      → Returns (Done s) (with_second env n k t)
  unfolding with_second second_found
  with_second-Done n k p r next t o = Returns-bind (np_fid_find-Finds n t o.safe.pool) looked
    where
      looked : (q : Option Ptr) (u : St) → Finds n t q u → Returns (Done s) (second_found env q k u)
      looked none u f =
          let o' = Own-closed s p r t u f.grows o in
          fail-Done s env _ _ u o'.safe o'.req o'.workreqs
      looked (some q) u f =
          let o' = Own-closed s p r t u f.grows o in
          let live = (f.found q refl).0 in
          Returns-bind (np_fid_incref-Incref u q live) λ _ w i.
            Returns-bind (next q w (Pair-Incref s p q r u w o' live i)) λ rc x y.
              Returns-bind
                (np_fid_decref-Drops env c q x y.own.safe (Pair-live s p q _ x y) (inr y.second))
                λ _ z (v', d). returns (Done-Own s p rc (Pair-drop s p q x z y v' d))

  Keeps-on_two :
      (p q : Ptr) (e : Event)
      → (event_fids e ≡ p ∷ q ∷ []) ⊎ (event_fids e ≡ q ∷ p ∷ [])
      → Keeps (Pair s p q (some p)) (call_rc env e)
  Keeps-on_two p q e h = Keeps-call_rc (Pair-closed s p q _) env c e (go h)
    where
      go :
          (event_fids e ≡ p ∷ q ∷ []) ⊎ (event_fids e ≡ q ∷ p ∷ [])
          → (t : St) → Pair s p q (some p) t
          → AllLive t (event_fids e)
      go (inl h) t o =
          subst (AllLive t) (sym h)
            (live_two t p q (Own-live s p _ t o.own) (Pair-live s p q _ t o))
      go (inr h) t o =
          subst (AllLive t) (sym h)
            (live_two t q p (Pair-live s p q _ t o) (Own-live s p _ t o.own))

  -- A test that fails ends the handler, also before the request has a fid.
  dir_checked-Done :
      (f : Npfid) (k : M (Option Npfcall)) (p : Ptr) (r : Option Ptr) (t : St)
      → Own s p r t
      → Returns (Done s) (k t)
      → Returns (Done s) (dir_checked env f k t)
  unfolding dir_checked
  dir_checked-Done f k p r t o h =
      Returns-if (f.omode != onotopen) (fail env bad_use_fid eio) _ t
        (λ _. fail-Done s env bad_use_fid eio t o.safe o.req o.workreqs)
        (λ _.
          Returns-if (not (has_bits f.type qtdir)) (fail env not_dir enotdir) k t
            (λ _. fail-Done s env not_dir enotdir t o.safe o.req o.workreqs) (λ _. h))

  pub np_rename-Done : (tc : Npfcall) → Returns (Done s) (np_rename env tc s)
  unfolding np_rename event_fids
  np_rename-Done tc = with_fid-Done s env _ _ v λ p t o.
      with_second-Done _ _ p _
        (λ q u. (Keeps-on_two p q (Event.rename p q tc.name) (inl refl)).at u) t o

  -- The checks on the directory, when the request has its fid.
  link_checked-Keeps :
      (tc : Npfcall) (p q : Ptr) (e : Event)
      → (event_fids e ≡ p ∷ q ∷ []) ⊎ (event_fids e ≡ q ∷ p ∷ [])
      → Keeps (Pair s p q (some p)) (load q >>= λ g. dir_checked env g (call_rc env e))
  link_checked-Keeps tc p q e h =
      search (Keeps-bind, Keeps-load, Pair-closed, Pair-live, dir_checked-Keeps, Keeps-on_two) depth
        10

  pub np_link-Done : (tc : Npfcall) → s.rfid ≡ none → Returns (Done s) (np_link env tc s)
  unfolding np_link event_fids
  np_link-Done tc none_yet = with_ref-Done s env _ _ v λ p t o.
      with_second-Done _ _ p _
        (λ q u o'.
          (link_checked-Keeps tc p q (Event.link q p tc.name) (inr refl)).at _
            (record { own = Own-set s p _ u o'.own; second = o'.second; both = o'.both }))
        t o

  pub np_renameat-Done : (tc : Npfcall) → Returns (Done s) (np_renameat env tc s)
  unfolding np_renameat event_fids
  np_renameat-Done tc = with_fid-Done s env _ _ v λ p t o.
      Returns-bind ((Keeps-load (Own-closed s p _) p (Own-live s p _)).at t o) λ f u o'.
        dir_checked-Done f _ p _ u o' (
          with_second-Done _ _ p _
            (λ q w.
              (link_checked-Keeps tc p q (Event.renameat p tc.oname q tc.name) (inl refl)).at w)
            u o')

  pub np_unlinkat-Done : (tc : Npfcall) → Returns (Done s) (np_unlinkat env tc s)
  unfolding np_unlinkat event_fids
  np_unlinkat-Done tc = with_ref-Done s env _ _ v λ p t o.
      Returns-bind ((Keeps-load (Own-closed s p _) p (Own-live s p _)).at t o) λ f u o'.
        dir_checked-Done f _ p _ u o' (
          Keeps-Done s p _ (Keeps-on_fid_rc s env c p (Event.unlinkat p tc.name) refl) _
            (Own-set s p _ u o'))
