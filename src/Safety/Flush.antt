-- ===== src/Safety/Flush.antt =====
-- libnpfs/fcall.c: np_flush, and what a handler leaves to np_respond.
use npfs.Prelude.{
  ap, Bool-cases, ◌⊎◌, inl, inr, ◌≢◌, ◌∙◌, ◌==◌, ap, if◌then◌else◌, ◌≡◌, refl, sym, Bool, true,
  false, List, [], ◌∷◌, Option, none, some, arith, ==_self,
}
use npfs.Types.{blank, Npfcall}
use npfs.State.{Npreq, Ptr, Event, Env, St, pure}
use npfs.State.Returns.{Returns, returns, Returns-bind, Returns-if}
use npfs.Safety.Grows.{Safe, SafeBut-Grows, Grows, Calm-refl}
use npfs.Safety.Contract.{Contract, event_fids}
use npfs.Safety.Fids.{Done}
use npfs.Types.{blank}
use npfs.Constants.{rflush, rread, rread}
use npfs.Safety.Actions.{np_malloc-Calm, np_malloc-Calm}
use npfs.Fcall.Reply.{np_create_rflush, create_reply, has_type, create_reply}
use npfs.Fcall.Session.{
  flush_work, flush_waiting, find_req, remove_req, add_flusher, np_flush, set_flushers,
}
use npfs.Srv.Respond.{req_of, flushers_of}
use npfs.Safety.Contract.{call_void-Calm}

-- What np_respond relies on: a safe state, a fid for a read reply, and no request that flushes this
-- one.
pub record Handled (rc : Option Npfcall) (s : St) : Type 0 where
  pub safe : Safe s
  pub alone : flushers_of s.req s.workreqs ≡ []
  pub fid : (s.rfid ≢ none) ⊎ (has_type rc rread ≡ false)

pub Handled-Done :
    (s0 : St) (rc : Option Npfcall) (s : St)
    → flushers_of s0.req s0.workreqs ≡ []
    → Done s0 rc s
    → Handled rc s
Handled-Done s0 rc s e d = record { safe = d.safe; alone = rw (d.req, d.workreqs, e); fid = d.fid }

pub Handled-Grows : (rc : Option Npfcall) {s t : St} → Grows s t → Handled rc s → Handled rc t
Handled-Grows rc g h = record {
  safe = SafeBut-Grows g h.safe;
  alone = rw (g.req, g.workreqs) h.alone;
  fid = elim h.fid [ inl f ↦ inl (λ e. f (sym g.rfid ∙ e)) | inr f ↦ inr f ];
}

-- To flush a request gives the others no flusher.
req_of-add_flusher :
    (id j q : Ptr) (rs : List Npreq) → j ≢ id → req_of id (add_flusher j q rs) ≡ req_of id rs
unfolding req_of add_flusher
req_of-add_flusher id j q [] ne = refl
req_of-add_flusher id j q (r ∷ rs) ne = elim (Bool-cases (r.id == j)) [
  | inl hit ↦ let miss : (r.id == id) ≡ false = ground (arith, hit) in rw (hit, miss)
  | inr miss ↦ rw (miss, req_of-add_flusher id j q rs ne)
]

flushers_of-add_flusher :
    (id j q : Ptr) (rs : List Npreq)
    → j ≢ id
    → flushers_of id (add_flusher j q rs) ≡ flushers_of id rs
unfolding flushers_of
flushers_of-add_flusher id j q rs ne = ap flushers (req_of-add_flusher id j q rs ne)
  where
    flushers : Option Npreq → List Ptr
    flushers o = elim o [ none ↦ [] | some r ↦ r.flushers ]

no_request : (id : Ptr) → flushers_of id [] ≡ []
unfolding flushers_of req_of
no_request id = refl

flushers_of-here :
    (id : Ptr) (r : Npreq) (rs : List Npreq)
    → r.id == id ≡ true
    → flushers_of id (r ∷ rs) ≡ r.flushers
unfolding flushers_of req_of
flushers_of-here id r rs h =
    ap (λ b. elim (if b then some r else req_of id rs) [ none ↦ [] | some q ↦ q.flushers ]) h

flushers_of-there :
    (id : Ptr) (r : Npreq) (rs : List Npreq)
    → r.id == id ≡ false
    → flushers_of id (r ∷ rs) ≡ flushers_of id rs
unfolding flushers_of req_of
flushers_of-there id r rs h =
    ap (λ b. elim (if b then some r else req_of id rs) [ none ↦ [] | some q ↦ q.flushers ]) h

pub flushers_of-first : (r : Npreq) (rs : List Npreq) → flushers_of r.id (r ∷ rs) ≡ r.flushers
flushers_of-first r rs = flushers_of-here r.id r rs (==_self r.id)

flushers_of-set_flushers :
    (id : Ptr) (rs : List Npreq) → flushers_of id (set_flushers id [] rs) ≡ []
unfolding set_flushers
flushers_of-set_flushers id [] = no_request id
flushers_of-set_flushers id (r ∷ rs) = elim (Bool-cases (r.id == id)) [
  | inl hit ↦
      ap
        (λ b.
          flushers_of id (if b then record r { flushers = [] } ∷ rs else r ∷ set_flushers id [] rs))
        hit
      ∙ flushers_of-here id (record r { flushers = [] }) rs hit
  | inr miss ↦
      ap
        (λ b.
          flushers_of id (if b then record r { flushers = [] } ∷ rs else r ∷ set_flushers id [] rs))
        miss
      ∙ flushers_of-there id r (set_flushers id [] rs) miss
      ∙ flushers_of-set_flushers id rs
]

module _ (env : Env) (c : Contract env) (s : St) (v : Safe s)
    (alone : flushers_of s.req s.workreqs ≡ []) where
  rflush-Handled :
      (rs : List Npreq) → Returns Handled (np_create_rflush env (record s { reqs = rs }))
  unfolding np_create_rflush create_reply
  rflush-Handled rs = Returns-bind (np_malloc-Calm env _) λ b u g. returns (
      Handled-Grows _ g.0.grows (record {
        safe = record { pool = v.pool; counted = v.counted; mine = v.mine };
        alone = alone;
        fid = inr (kind b);
      }))
    where
      kind : (b : Bool) → has_type (if b then some (blank rflush) else none) rread ≡ false
      kind true = refl
      kind false = refl

  flush_work-Handled :
      (r : Option Npreq)
      → ((q : Npreq) → r ≡ some q → (q.id ≢ s.req) × (q.flushers ≡ []))
      → Returns Handled (flush_work env r s)
  unfolding flush_work event_fids
  flush_work-Handled none other = rflush-Handled s.reqs
  flush_work-Handled (some r) other =
      Returns-bind
        (Returns-if env.has_flush _ (pure tt) _
          (λ _. call_void-Calm env c (Event.flush r.id) _ (λ p m. absurd m))
          (λ _. returns (Calm-refl _)))
        λ _ u g. returns (
          Handled-Grows none g.grows (record {
            safe = record { pool = v.pool; counted = v.counted; mine = v.mine };
            alone =
                flushers_of-add_flusher s.req r.id s.req _ (other r refl).0
                ∙ ap (λ l. flushers_of s.req (set_flushers s.req l s.workreqs)) (other r refl).1
                ∙ flushers_of-set_flushers s.req s.workreqs;
            fid = inr refl;
          }))

  flush_waiting-Handled :
      (tc : Npfcall) (r : Option Npreq)
      → ((q : Npreq)
          → find_req s.conn tc.oldtag s.workreqs ≡ some q
          → (q.id ≢ s.req) × (q.flushers ≡ []))
      → Returns Handled (flush_waiting env tc r s)
  unfolding flush_waiting
  flush_waiting-Handled tc none other = flush_work-Handled _ other
  flush_waiting-Handled tc (some r) other = rflush-Handled (remove_req r.id s.reqs)

  -- A flush of the request itself is left out, and one of a request that another one flushes.
  pub np_flush-Handled :
      (tc : Npfcall)
      → ((conn : Ptr) (r : Npreq)
          → find_req conn tc.oldtag s.workreqs ≡ some r
          → (r.id ≢ s.req) × (r.flushers ≡ []))
      → Returns Handled (np_flush env tc s)
  unfolding np_flush
  np_flush-Handled tc other = flush_waiting-Handled tc _ (other s.conn)
