-- ===== src/Safety/Respond.antt =====
-- libnpfs/srv.c: the references of np_respond.
use npfs.Prelude.{
  has_bits, has_bits, ◌⊎◌, inl, inr, ◌≢◌, has_bits, ◌==◌, ◌≡◌, refl, sym, true, false, List, [],
  ◌∷◌, Option, none, some, ℕ,
}
use npfs.Types.{Npfcall}
use npfs.State.{Npreq, Ptr, Env, St, pure}
use npfs.State.Returns.{Returns, returns, Returns-bind, Returns-mono, Returns-if}
use npfs.Safety.Grows.{Calm-refl, Safe, SafeBut-Grows, IsLive, Calm-refl}
use npfs.Safety.Contract.{Contract}
use npfs.Safety.Fids.{some≢none, some≢none}
use npfs.Constants.{rread, qtdir, rread}
use npfs.Safety.Actions.{CalmTo, CalmTo, load_live, adjust-Calm}
use npfs.Fidpool.{np_fid_decref, np_fid_decref}
use npfs.Safety.Decref.{np_fid_decref-Counted}
use npfs.Safety.Drops.{Counted}
use npfs.Srv.Respond.{flushers_of}
use npfs.Srv.Respond.{
  remove_reqs, note_dir_offset, np_conn_respond, note_offset, send_reply, answer_flushers,
  respond_first, np_respond,
}
use npfs.Safety.Flush.{Handled}

module _ (env : Env) (c : Contract env) where
  note_offset-Calm :
      (tc rc : Npfcall) (p : Option Ptr) (s : St)
      → ((q : Ptr) → p ≡ some q → IsLive s.heap q)
      → (p ≢ none) ⊎ ((rc.type == rread) ≡ false)
      → CalmTo s (note_offset env tc rc p s)
  unfolding note_offset note_dir_offset
  note_offset-Calm tc rc none s live (inl ne) = absurd (ne refl)
  note_offset-Calm tc rc none s live (inr e) = rw e (returns (Calm-refl s))
  note_offset-Calm tc rc (some p) s live why =
      let (f, e) = live p refl in
      Returns-if (rc.type == rread) _ (pure tt) s
        (λ _. rw (load_live s p f e) (
          Returns-if (has_bits f.type qtdir) _ (pure tt) s
            (λ _. adjust-Calm s p f e _ refl (λ k a. a)) (λ _. returns (Calm-refl s))))
        (λ _. returns (Calm-refl s))

  -- The reference that the request has goes with the reply.
  drop_own-Safe :
      (p : Option Ptr) (s : St)
      → Safe s
      → s.rfid ≡ p
      → Returns (λ _ t. Counted t) (np_fid_decref env p s)
  unfolding np_fid_decref
  drop_own-Safe none s v e =
      returns (record { pool = v.pool; counted = λ q l. v.counted q l (λ x. cc) })
  drop_own-Safe (some p) s v e =
      let (f, live, a) = v.mine p e in
      Returns-mono
        (np_fid_decref-Counted env c p s
          (record { pool = v.pool; counted = λ q l. v.counted q l (λ x. cc) }) (f, live))
        (λ _ t (v', d). v')

  send_reply-Safe :
      (tc rc : Npfcall) (s : St) (tag : ℕ)
      → Safe s
      → (s.rfid ≢ none) ⊎ ((rc.type == rread) ≡ false)
      → Returns (λ _ t. Safe t × (t.rfid ≡ none)) (send_reply env tc rc s.rfid tag s)
  unfolding send_reply np_conn_respond
  send_reply-Safe tc rc s tag v fid =
      Returns-bind
        (note_offset-Calm tc rc s.rfid s (λ q e. let (f, live, a) = v.mine q e in (f, live)) fid)
        λ _ t g.
          Returns-bind (drop_own-Safe s.rfid t (SafeBut-Grows g.grows v) g.grows.rfid) λ _ u v'.
            returns (
              record {
                pool = v'.pool;
                counted = λ q l _. v'.counted q l;
                mine = λ q e. absurd (some≢none q (sym e));
              },
              refl,
            )

  no_flushers :
      (all : List Npreq) (ids : List Ptr) (s : St)
      → ids ≡ []
      → Safe s
      → Returns (λ _ t. Safe t) (answer_flushers env all ids s)
  unfolding answer_flushers
  no_flushers all [] s e v = returns v
  no_flushers all (i ∷ ids) s e v = absurd cc

  pub np_respond-Safe :
      (tc rc : Npfcall) (s : St)
      → Handled (some rc) s
      → Returns (λ _ t. Safe t) (np_respond env tc rc s)
  unfolding np_respond respond_first
  np_respond-Safe tc rc s h =
      Returns-if s.responded (pure tt) (respond_first env tc rc) s (λ _. returns h.safe)
        λ _.
          Returns-bind
            (send_reply-Safe tc rc
              (record s {
                responded = true;
                workreqs = remove_reqs (s.req ∷ flushers_of s.req s.workreqs) s.workreqs;
              })
              s.tag (record { pool = h.safe.pool; counted = h.safe.counted; mine = h.safe.mine })
              h.fid)
            λ _ t v. no_flushers _ _ t h.alone v.0
