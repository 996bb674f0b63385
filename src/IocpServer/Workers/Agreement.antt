-- ===== src/IocpServer/Workers/Agreement.antt =====
-- IOCPServer.cpp, `WorkerThread` on several workers, against one completion after another.
use mathlib.Core.List.{Perm, perm_middle}
use mathlib.Core.List.Perm
use iocp_chat_server.Base.{
  ℕ, zero, suc, ◌≡◌, refl, sym, ap, ◌∙◌, ◌⊎◌, inl, inr, none, some, true, List, [], ◌∷◌, ◌++◌, ◌==◌,
  arith, subst, Option, length, Bool-cases, Option-cases,
}
use iocp_chat_server.Network.{PacketObfuscation, Winsock}
use iocp_chat_server.Network.IocpSession.{
  IocpSession, Received, needs_more, packaged, invalid_packet, overreads, on_recv,
}
use iocp_chat_server.Network.IocpSession.Reassembly.{deliver, arrive, arrive_all, arrive_all-cons}
use iocp_chat_server.SessionManager.Memory.{Pointer, World, done, ◌>>=◌, update, puts_package}
use iocp_chat_server.IocpServer.Serve.{logged}
use iocp_chat_server.IocpServer.Worker.{take_received}
use iocp_chat_server.IocpServer.Packets.{packages, packages-logged, Fine}
use iocp_chat_server.IocpServer.Packets.Pieces.{AllFine, Puts, packed, arrives-Puts}
use iocp_chat_server.IocpServer.Packets.Clients.{pieces_of, arrive_from, Ready, Ready-tail}
use iocp_chat_server.IocpServer.Workers.{
  Act, receives, puts, completions, take_out, receive-lem, hold-Fine, act_each,
}

-- The packages that have been put and those in hands are those of `v`, in some order; the sessions are
-- those of `v`.
pub record Agrees (w : World) (l : List (Pointer × ℕ)) (v : World) : Type 0 where
  pub list : w.session_list ≡ v.session_list
  pub there : (p : Pointer) → w.heap p ≡ v.heap p
  pub all : Perm (packages w.effects ++ l) (packages v.effects)

Perm-packed :
    (p : Pointer) (r : Received ℕ) (a l b : List (Pointer × ℕ))
    → Perm (a ++ l) b
    → Perm (a ++ packed p (r ∷ []) l) (packed p (r ∷ []) b)
unfolding packed
Perm-packed p (packaged k) a l b h = Perm.trans (perm_middle a l) (Perm.cons (p, k) h)
Perm-packed p needs_more a l b h = h
Perm-packed p invalid_packet a l b h = h
Perm-packed p overreads a l b h = h

Perm-take_out {ℓ} :
    {A : Type ℓ} (i : ℕ) (l : List A) (x : A × List A) → take_out i l ≡ some x → Perm (x.0 ∷ x.1) l
unfolding take_out
Perm-take_out i [] x e = absurd cc
Perm-take_out {A} zero (y ∷ ys) x e =
    let same : (y, ys) ≡ x = cc in
    subst (λ (z : A × List A). Perm (z.0 ∷ z.1) (y ∷ ys)) same (Perm.refl (y ∷ ys))
Perm-take_out {A} (suc i) (y ∷ ys) x e = elim (Option-cases (take_out i ys)) [
  | inl nothing ↦ let clash : none ≡ some x = rw nothing at e in absurd cc
  | inr (r, found) ↦
      let one : some (r.0, y ∷ r.1) ≡ some x = rw found at e in
      let same : (r.0, y ∷ r.1) ≡ x = cc in
      subst (λ (z : A × List A). Perm (z.0 ∷ z.1) (y ∷ ys)) same
        (Perm.trans (Perm.swap y r.0 r.1) (Perm.cons y (Perm-take_out i ys r found)))
]

module _ (net : Winsock) (o : PacketObfuscation) (analyzer : List ℕ → Option ℕ) (fuel : ℕ) where
  receive-Agrees :
      (p : Pointer) (c : List ℕ) (s : IocpSession) (l : List (Pointer × ℕ)) (w v v' : World)
      → Agrees w l v
      → w.heap p ≡ some s
      → Puts p
          (arrive net o analyzer s c).0
          (packed p ((arrive net o analyzer s c).1 ∷ []) (packages v.effects))
          v
          v'
      → let r = on_recv net o analyzer (deliver s c) (length c) in
        Agrees
          (record w {
            heap = update (update w.heap p (some (deliver s c))) p (some r.0);
            effects = logged p r.1 w.effects;
          })
          (packed p (r.2 ∷ []) l)
          v'
  unfolding arrive
  receive-Agrees p c s l w v v' a e put =
      let r = on_recv net o analyzer (deliver s c) (length c) in
      record {
        list = a.list ∙ sym put.list;
        there = λ q. elim (Bool-cases (p == q)) [
          | inl y ↦ let same : p ≡ q = ground arith in rw y (sym put.there ∙ ap v'.heap same)
          | inr n ↦ rw n (a.there q ∙ sym (put.others q (ground arith)))
        ];
        all =
            rw (packages-logged p r.1 w.effects, put.packages_put)
              (Perm-packed p r.2 (packages w.effects) l (packages v.effects) a.all);
      }

  puts-Agrees :
      (x : Pointer × ℕ) (i : ℕ) (l rest : List (Pointer × ℕ)) (w v : World)
      → take_out i l ≡ some (x, rest)
      → Agrees w l v
      → Agrees (record w { effects = puts_package x.0 x.1 ∷ w.effects }) rest v
  unfolding packages
  puts-Agrees x i l rest w v e a = record {
    list = a.list;
    there = a.there;
    all =
        Perm.trans (Perm.symm (perm_middle (packages w.effects) rest)) (
          Perm.trans (Perm.append_left (packages w.effects) (Perm-take_out i l (x, rest) e)) a.all);
  }

  pub act_each-receives :
      (p : Pointer) (c : List ℕ) (acts : List Act) (s : IocpSession) (l : List (Pointer × ℕ))
      (w : World)
      → w.heap p ≡ some s
      → Fine (arrive net o analyzer s c).1
      → let r = on_recv net o analyzer (deliver s c) (length c) in
        act_each net o analyzer fuel (receives p c ∷ acts) l w
        ≡ act_each net o analyzer fuel acts (packed p (r.2 ∷ []) l) (record w {
          heap = update (update w.heap p (some (deliver s c))) p (some r.0);
          effects = logged p r.1 w.effects;
        })
  unfolding act_each arrive
  act_each-receives p c acts s l w e f =
      let r = on_recv net o analyzer (deliver s c) (length c) in
      rw
        (
          receive-lem net o analyzer fuel p c s w e,
          ◌>>=◌,
          hold-Fine net o analyzer fuel p r.2 l
              (record w {
                heap = update (update w.heap p (some (deliver s c))) p (some r.0);
                effects = logged p r.1 w.effects;
              })
              f,
        )
        refl

  act_each-nothing :
      (i : ℕ) (acts : List Act) (l : List (Pointer × ℕ)) (w : World)
      → take_out i l ≡ none
      → act_each net o analyzer fuel (puts i ∷ acts) l w ≡ act_each net o analyzer fuel acts l w
  unfolding act_each
  act_each-nothing i acts l w e = rw (act_each, e) refl

  pub act_each-puts :
      (i : ℕ) (acts : List Act) (x : Pointer × ℕ) (l rest : List (Pointer × ℕ)) (w : World)
      → take_out i l ≡ some (x, rest)
      → act_each net o analyzer fuel (puts i ∷ acts) l w
        ≡ act_each net o analyzer fuel acts rest
            (record w { effects = puts_package x.0 x.1 ∷ w.effects })
  unfolding act_each take_received
  act_each-puts i acts x l rest w e = rw (act_each, e, ◌>>=◌) refl

  -- What the workers do in this order ends as when they handle one completion after another.
  pub record Same (acts : List Act) (l : List (Pointer × ℕ)) (w v : World) : Type 0 where
    pub hands : List (Pointer × ℕ)
    pub ends : World
    pub one_by_one : World
    pub runs : act_each net o analyzer fuel acts l w ≡ done hands ends
    pub runs_one_by_one : arrive_from net o analyzer fuel (completions acts) v ≡ done tt one_by_one
    pub agrees : Agrees ends hands one_by_one

  pub act_each-Same :
      (acts : List Act) (l : List (Pointer × ℕ)) (w v : World)
      → Agrees w l v
      → ((q : Pointer)
          → (pieces_of q (completions acts) ≡ [])
            ⊎ Ready net o analyzer fuel v q (pieces_of q (completions acts)))
      → Same acts l w v
  unfolding act_each arrive_from pieces_of
  act_each-Same [] l w v a h = record {
    hands = l;
    ends = w;
    one_by_one = v;
    runs = refl;
    runs_one_by_one = refl;
    agrees = a;
  }
  act_each-Same (receives p c ∷ acts) l w v a h =
      let es = completions acts in
      let itself : (p == p) ≡ true = ground arith in
      let first : (c ∷ pieces_of p es ≡ []) ⊎ Ready net o analyzer fuel v p (c ∷ pieces_of p es) =
        rw itself at (h p) in
      elim first [
        | inl clash ↦ absurd cc
        | inr r ↦
            let s = r.session in
            let step = arrive net o analyzer s c in
            let fine : AllFine (step.1 ∷ (arrive_all net o analyzer step.0 (pieces_of p es)).1) =
              rw (arrive_all-cons net o analyzer s c (pieces_of p es)) at (r.fine) in
            let b =
              arrives-Puts net o analyzer fuel p r.not_null c s v r.there r.non_empty.0 r.reads
                fine.0 in
            let here = a.there p ∙ r.there in
            let rest = act_each-Same acts _ _ b.0 (receive-Agrees p c s l w v b.0 a here b.2) (λ q.
              Ready-tail net o analyzer fuel p q c es s
                (packed p (step.1 ∷ []) (packages v.effects)) v b.0 r.there b.2 (h q)) in
            record {
              hands = rest.hands;
              ends = rest.ends;
              one_by_one = rest.one_by_one;
              runs = act_each-receives p c acts s l w here fine.0 ∙ rest.runs;
              runs_one_by_one = rw (b.1, ◌>>=◌) rest.runs_one_by_one;
              agrees = rest.agrees;
            }
      ]
  act_each-Same (puts i ∷ acts) l w v a h = elim (Option-cases (take_out i l)) [
    | inl nothing ↦
        let rest = act_each-Same acts l w v a h in
        record {
          hands = rest.hands;
          ends = rest.ends;
          one_by_one = rest.one_by_one;
          runs = act_each-nothing i acts l w nothing ∙ rest.runs;
          runs_one_by_one = rest.runs_one_by_one;
          agrees = rest.agrees;
        }
    | inr ((x, others), found) ↦
        let rest = act_each-Same acts others _ v (puts-Agrees x i l others w v found a) h in
        record {
          hands = rest.hands;
          ends = rest.ends;
          one_by_one = rest.one_by_one;
          runs = act_each-puts i acts x l others w found ∙ rest.runs;
          runs_one_by_one = rest.runs_one_by_one;
          agrees = rest.agrees;
        }
  ]
