-- ===== src/Safety/Files.antt =====
-- libnpfs/fcall.c: the references of the handlers of 9P2000 on one fid.
use npfs.Prelude.{
  ◌≢◌, ◌∙◌, has_bits, ◌==◌, ◌!=◌, ◌&&◌, ap, if◌then◌else◌, is_negative, to_nat, leb, ◌≡◌, refl, sym,
  Bool, true, false, ◌∷◌, Option, none, some, ℕ, arith,
}
use npfs.Types.{Npfcall}
use npfs.State.{Ptr, Npfid, Event, Outcome, Env, St, ◌>>=◌}
use npfs.State.Returns.{Returns, returns, Returns-bind, Returns-if}
use npfs.Safety.Relies.{Removes, AuthClunks, AuthReads}
use npfs.Safety.Grows.{Safe}
use npfs.Safety.Contract.{call_rc-Calm, call-Calm, Contract, event_fids}
use npfs.Safety.Keeps.{Keeps, Keeps-load, Keeps-fail, Keeps-reply}
use npfs.Safety.Fids.{
  Own, Own-closed, Own-live, Own-live_one, keeps, Keeps-on_fid, Keeps-on_fid_rc, Done, Done-Own,
  single, with_fid-Done, drop_on-Done, Keeps-Done,
}
use npfs.Types.{blank}
use npfs.Constants.{qtauth, onotopen, orclose, rerror, rread}
use npfs.Safety.Actions.{np_malloc-Calm}
use npfs.Fcall.Reply.{
  np_create_rclunk, np_create_rwrite, np_alloc_rread, np_set_rread_count, create_reply,
}
use npfs.Fcall.Files.{
  open_checked, np_open, create_reply_opens, create_checked, np_create, auth_read_into,
  read_checked, read_sized, np_read, auth_written, write_checked, np_write, auth_clunked,
  clunk_removed, auth_clunk, clunk_checked, np_clunk, np_remove, np_stat, wstat_checked, np_wstat,
}

kept : (b : Bool) (m : Option Npfcall) (r : Npfcall) → (if b then m else none) ≡ some r → m ≡ some r
kept true m r e = e
kept false m r e = cc

count_of : (q r : Npfcall) → some q ≡ some r → r.count ≡ q.count
count_of q r e = ap (λ (x : Npfcall). x.count) (sym (let same : q ≡ r = cc in same))

module _ (env : Env) (c : Contract env) (s : St) (v : Safe s) where
  open_checked-Keeps :
      (tc : Npfcall) (p : Ptr) (f : Npfid) → Keeps (Own s p (some p)) (open_checked env tc p f)
  unfolding open_checked event_fids
  open_checked-Keeps tc p f = search keeps depth 14

  pub create_reply_opens-Keeps :
      (p : Ptr) (type mode : ℕ) (rc : Option Npfcall)
      → Keeps (Own s p (some p)) (create_reply_opens env p type mode rc)
  unfolding create_reply_opens
  create_reply_opens-Keeps p type mode none = search keeps
  create_reply_opens-Keeps p type mode (some rc) = search keeps depth 14

  create_checked-Keeps :
      (tc : Npfcall) (p : Ptr) (f : Npfid) (d : Bool)
      → Keeps (Own s p (some p)) (create_checked env tc p f d)
  unfolding create_checked event_fids
  create_checked-Keeps tc p f d = search (keeps, create_reply_opens-Keeps) depth 14

  -- The reply of an auth read has the room that was asked for.
  alloc_count :
      (n : ℕ) (p : Ptr) (t : St)
      → Own s p (some p) t
      → Returns
          (λ rc u. Own s p (some p) u × ((r : Npfcall) → rc ≡ some r → r.count ≡ n))
          (np_alloc_rread env n t)
  unfolding np_alloc_rread create_reply
  alloc_count n p t o =
      Returns-bind {P = Has} given λ rc u (o', h). returns (o', λ r e. h r (kept _ rc r e))
    where
      Has : Option Npfcall → St → Type 0
      Has rc u = Own s p (some p) u × ((r : Npfcall) → rc ≡ some r → r.count ≡ n)

      given : Returns Has (create_reply env (record (blank rread) { count = n }) t)
      given = Returns-bind (np_malloc-Calm env t) λ b u g. returns (
        Own-closed s p _ t u g.0.grows o,
        λ (r : Npfcall) e. count_of (record (blank rread) { count = n }) r (kept b _ r e),
      )

  auth_read-Keeps :
      (few : AuthReads env) (tc : Npfcall) (p : Ptr)
      → Keeps (Own s p (some p)) (np_alloc_rread env tc.count >>= auth_read_into env tc p)
  unfolding auth_read_into event_fids np_set_rread_count
  auth_read-Keeps few tc p = record {
    at = λ t o. Returns-bind (alloc_count tc.count p t o) λ rc u (o', h). room rc u o' h;
  }
    where
      room :
          (rc : Option Npfcall) (u : St)
          → Own s p (some p) u
          → ((r : Npfcall) → rc ≡ some r → r.count ≡ tc.count)
          → Returns (λ _ w. Own s p (some p) w) (auth_read_into env tc p rc u)
      room none u o h = returns o
      room (some r) u o h =
          Returns-bind
            (call-Calm env c (Event.auth_read p tc.offset tc.count) u (Own-live_one s p _ u o))
            λ a w (g, e).
              Returns-if (is_negative a.ret) _ _ w (λ _. returns (Own-closed s p _ u w g.grows o))
                (λ _.
                  let fits : leb (to_nat a.ret) r.count ≡ true =
                    let bound = few u.trace p tc.offset tc.count in
                    let same : to_nat a.ret
                        ≡ to_nat (env.server (Event.auth_read p tc.offset tc.count ∷ u.trace)).ret =
                      ap (λ (x : Outcome). to_nat x.ret) e in
                    ground (arith, bound, same, h r refl) in
                  rw fits (returns (Own-closed s p _ u w g.grows o)))

  read_checked-Keeps :
      (few : AuthReads env) (tc : Npfcall) (p : Ptr) (f : Npfid)
      → Keeps (Own s p (some p)) (read_checked env tc p f)
  unfolding read_checked event_fids
  read_checked-Keeps few tc p f = search (keeps, auth_read-Keeps few) depth 18

  read_sized-Keeps :
      (few : AuthReads env) (tc : Npfcall) (p : Ptr) (m : ℕ)
      → Keeps (Own s p (some p)) (read_sized env tc p m)
  unfolding read_sized
  read_sized-Keeps few tc p m = search (keeps, read_checked-Keeps few) depth 14

  auth_written-Keeps : (p : Ptr) (o : Outcome) → Keeps (Own s p (some p)) (auth_written env o)
  unfolding auth_written np_create_rwrite
  auth_written-Keeps p o = search keeps depth 14

  write_checked-Keeps :
      (tc : Npfcall) (p : Ptr) (f : Npfid) (m : ℕ)
      → Keeps (Own s p (some p)) (write_checked env tc p f m)
  unfolding write_checked event_fids
  write_checked-Keeps tc p f m = search (keeps, Keeps-on_fid, auth_written-Keeps) depth 18

  wstat_checked-Keeps :
      (tc : Npfcall) (p : Ptr) (f : Npfid) → Keeps (Own s p (some p)) (wstat_checked env tc p f)
  unfolding wstat_checked event_fids
  wstat_checked-Keeps tc p f = search keeps depth 14

  pub np_open-Done : (tc : Npfcall) → Returns (Done s) (np_open env tc s)
  unfolding np_open
  np_open-Done tc = single s env _ _ v λ p. search (keeps, open_checked-Keeps) depth 14

  pub np_create-Done : (tc : Npfcall) → Returns (Done s) (np_create env tc s)
  unfolding np_create
  np_create-Done tc = single s env _ _ v λ p. search (keeps, create_checked-Keeps) depth 14

  pub np_read-Done : AuthReads env → (tc : Npfcall) → Returns (Done s) (np_read env tc s)
  unfolding np_read
  np_read-Done few tc = single s env _ _ v λ p. search (keeps, read_sized-Keeps few) depth 14

  pub np_write-Done : (tc : Npfcall) → Returns (Done s) (np_write env tc s)
  unfolding np_write
  np_write-Done tc = single s env _ _ v λ p. search (keeps, write_checked-Keeps) depth 14

  pub np_stat-Done : (tc : Npfcall) → Returns (Done s) (np_stat env tc s)
  unfolding np_stat event_fids
  np_stat-Done tc = single s env _ _ v λ p. search keeps

  pub np_wstat-Done : (tc : Npfcall) → Returns (Done s) (np_wstat env tc s)
  unfolding np_wstat
  np_wstat-Done tc = single s env _ _ v λ p. search (keeps, wstat_checked-Keeps) depth 14

  pub np_remove-Done : (tc : Npfcall) → Returns (Done s) (np_remove env tc s)
  unfolding np_remove event_fids
  np_remove-Done tc = with_fid-Done s env _ _ v λ p t o.
      Returns-bind ((Keeps-on_fid_rc s env c p (Event.remove p) refl).at t o)
        λ rc u o'. drop_on-Done s env c _ p rc u o'

  auth_clunk-Keeps :
      (p : Ptr) → env.has_auth_clunk ≡ true → Keeps (Own s p (some p)) (auth_clunk env p)
  unfolding auth_clunk auth_clunked np_create_rclunk event_fids
  auth_clunk-Keeps p set = rw set (search (keeps, Keeps-on_fid) depth 14)

  -- A remove that failed leaves the fid; any other one ends as a clunk does.
  clunk_removed-Done :
      (p : Ptr) (rc : Option Npfcall) (t : St)
      → rc ≢ none
      → Own s p (some p) t
      → Returns (Done s) (clunk_removed env p rc t)
  unfolding clunk_removed np_create_rclunk
  clunk_removed-Done p none t there o = absurd (there refl)
  clunk_removed-Done p (some rc) t there o =
      Returns-if (rc.type == rerror) _ _ t (λ _. returns (Done-Own s p _ o))
        λ _.
          Returns-bind ((Keeps-reply (Own-closed s p _) env _).at t o)
            λ r u o'. drop_on-Done s env c _ p r u o'

  clunk_checked-Done :
      (removes : Removes env) (auth_clunks : AuthClunks env) (p : Ptr) (f : Npfid) (t : St)
      → Own s p (some p) t
      → Returns (Done s) (clunk_checked env p f t)
  unfolding clunk_checked event_fids
  clunk_checked-Done removes auth_clunks p f t o =
      Returns-if (has_bits f.type qtauth) _ _ t
        (λ _.
          Returns-if env.has_auth _ _ t
            (λ set. Keeps-Done s p _ (auth_clunk-Keeps p (auth_clunks set)) t o)
            (λ _. Keeps-Done s p _ (Keeps-fail (Own-closed s p _) env _ _) t o))
        (λ _.
          Returns-if ((f.omode != onotopen) && (f.omode == orclose)) _ _ t
            (λ _.
              Returns-bind (call_rc-Calm env c (Event.remove p) t (Own-live_one s p _ t o))
                λ rc u (g, e).
                  clunk_removed-Done p rc u (λ n. removes t.trace p (sym e ∙ n))
                    (Own-closed s p _ t u g.grows o))
            (λ _.
              Returns-bind ((Keeps-on_fid_rc s env c p (Event.clunk p) refl).at t o)
                λ rc u o'. drop_on-Done s env c _ p rc u o'))

  pub np_clunk-Done :
      Removes env → AuthClunks env → (tc : Npfcall) → Returns (Done s) (np_clunk env tc s)
  unfolding np_clunk
  np_clunk-Done removes auth_clunks tc = with_fid-Done s env _ _ v λ p t o.
      Returns-bind ((Keeps-load (Own-closed s p _) p (Own-live s p _)).at t o)
        λ f u o'. clunk_checked-Done removes auth_clunks p f u o'
