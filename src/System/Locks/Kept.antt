-- ===== src/System/Locks/Kept.antt =====
-- What the calls of the registry of src/quote_server.rs leave, at its locks and in its map.
use mathlib.Core.Option
use rust_quote_streamer.Base.{
  ℕ, ◌+◌, ◌≡◌, ◌≢◌, refl, sym, ap, subst, ◌∙◌, inl, inr, true, false, List, [], ◌∷◌, ◌++◌, Option,
  none, some, some-eq, eqb, eqb_iff, nat_key, arith, Option-cases, Bool-cases, if◌then◌else◌,
}
use rust_quote_streamer.HashMap.{get, insert, get-insert_self, get-insert_other}
use rust_quote_streamer.Text.{Text}
use rust_quote_streamer.Platform.{Platform}
use rust_quote_streamer.Client
use rust_quote_streamer.Client.{Client}
use rust_quote_streamer.Client.Thread.{update, Worker, Callback, fresh}
use rust_quote_streamer.Server.Registry.Valid.{new_client, told}
use rust_quote_streamer.Server.Registry.Refines.{put}
use rust_quote_streamer.System.Locks.Defs.{Place, Thread, Locks, push, contains, fresh_thread}
use rust_quote_streamer.System.Locks.Sets.{
  IsDistinct, contains-last, IsDistinct-last, tell_all, get-tell_all,
}
use rust_quote_streamer.System.Locks.Agrees.{thread_of, Runs, Agrees}

module _ (p : Platform) where
  new_client-thread :
      (tickers : List Text) (callback : Callback p)
      → (w : Worker p) × ((new_client p tickers callback).tx ≡ some w)
        × (thread_of p w ≡ fresh_thread)
  unfolding Client.start Client.new fresh
  new_client-thread tickers callback = (_, refl, refl)

  told-thread :
      (c : Client p) (w : Worker p)
      → c.tx ≡ some w
      → (w' : Worker p) × ((told p c).tx ≡ some w') × (push update (thread_of p w) ≡ thread_of p w')
  told-thread c w tx = elim (Bool-cases w.running) [
    | inl on ↦ (record w { queue = w.queue ++ update ∷ [] }, rw (tx, on) refl, rw on refl)
    | inr off ↦ (w, rw (tx, off) refl, rw off refl)
  ]

  module _ (f : ℕ → Option (Client p)) (next : ℕ) (l : Locks) (agrees : Agrees p f next l)
      (callers : List (ℕ × Place)) where
    pub tells-Agrees :
        Agrees p
          (λ id. Option.map (told p) (f id))
          next
          (record l {
            callers = callers;
            threads = tell_all l.clients l.threads;
            clients_guard = none;
          })
    tells-Agrees = record {
      there = λ id c found. elim (Option-cases (f id)) [
        | inl e ↦ absurd (map_none c id e found)
        | inr (before, e) ↦
            let (there, runs) = agrees.there id before e in
            let (w, tx, same) = told-thread before runs.worker runs.tx in
            (
              there,
              subst (λ d. Runs p d (tell_all l.clients l.threads) id)
                  (some-eq (told p before) c (rw e at found))
                  (record {
                    worker = w;
                    tx = tx;
                    thread =
                        get-tell_all l.clients id l.threads (thread_of p runs.worker)
                          agrees.distinct there runs.thread
                        ∙ ap some same;
                  }),
            )
      ];
      gone = λ id out. elim (Option-cases (f id)) [
        | inl e ↦ agrees.gone id e
        | inr (c, e) ↦ absurd (map_some c id e out)
      ];
      distinct = agrees.distinct;
      count = agrees.count;
    }
      where
        map_none : (c : Client p) (id : ℕ) → f id ≡ none → Option.map (told p) (f id) ≡ some c → ⊥
        map_none c id e found = none_some (rw e at found)
          where
            none_some : {x : Client p} → none ≡ some x → ⊥
            none_some e = cc

        map_some : (c : Client p) (id : ℕ) → f id ≡ some c → Option.map (told p) (f id) ≡ none → ⊥
        map_some c id e out = none_some (rw e at out)
          where
            none_some : {x : Client p} → some x ≡ none → ⊥
            none_some e = cc

  module _ (f : ℕ → Option (Client p)) (l : Locks) (agrees : Agrees p f l.clients_count l)
      (callers : List (ℕ × Place)) (new : contains l.clients_count l.clients ≡ false) where
    pub adds-Agrees :
        (tickers : List Text) (callback : Callback p)
        → Agrees p
            (put p l.clients_count (some (new_client p tickers callback)) f)
            (l.clients_count + 1)
            (record l {
              callers = callers;
              threads = insert l.clients_count fresh_thread l.threads;
              clients = l.clients ++ l.clients_count ∷ [];
              clients_count = l.clients_count + 1;
              clients_guard = none;
            })
    adds-Agrees tickers callback = record {
      there = λ id c found. elim (Bool-cases (eqb l.clients_count id)) [
        | inl hit ↦
            let e = (eqb_iff l.clients_count id).0 hit in
            let (w, tx, same) = new_client-thread tickers callback in
            (
              contains-last id l.clients_count l.clients ∙ ground (arith, hit),
              subst (λ d. Runs p d (insert l.clients_count fresh_thread l.threads) id)
                  (some-eq (new_client p tickers callback) c (rw hit at found))
                  (record {
                    worker = w;
                    tx = tx;
                    thread =
                        subst
                          (λ i.
                            get i (insert l.clients_count fresh_thread l.threads)
                            ≡ some fresh_thread)
                          e (get-insert_self l.clients_count fresh_thread l.threads)
                        ∙ ap some (sym same);
                  }),
            )
        | inr miss ↦
            let (there, runs) = agrees.there id c (rw miss at found) in
            let other : l.clients_count ≢ id =
              λ e. let hit = (eqb_iff l.clients_count id).1 e in cc in
            (
              contains-last id l.clients_count l.clients ∙ rw there refl,
              record {
                worker = runs.worker;
                tx = runs.tx;
                thread =
                    get-insert_other l.clients_count id fresh_thread l.threads other ∙ runs.thread;
              },
            )
      ];
      gone = λ id out. elim (Bool-cases (eqb l.clients_count id)) [
        | inl hit ↦ absurd (put_there id hit out)
        | inr miss ↦
            let before = agrees.gone id (rw miss at out) in
            contains-last id l.clients_count l.clients ∙ rw (before, miss) refl
      ];
      distinct = IsDistinct-last l.clients_count l.clients new agrees.distinct;
      count = refl;
    }
      where
        put_there :
            (id : ℕ)
            → eqb l.clients_count id ≡ true
            → put p l.clients_count (some (new_client p tickers callback)) f id ≡ none
            → ⊥
        put_there id hit out = some_none (rw hit at out)
          where
            some_none : {x : Client p} → some x ≡ none → ⊥
            some_none e = cc

  pub removes-Agrees :
      (f : ℕ → Option (Client p)) (next : ℕ) (l : Locks) (id : ℕ) (callers : List (ℕ × Place))
      (threads : List (ℕ × Thread)) (clients : List ℕ)
      → Agrees p f next l
      → ((j : ℕ) → id ≢ j → get j threads ≡ get j l.threads)
      → ((j : ℕ) → contains j clients ≡ (if eqb id j then false else contains j l.clients))
      → IsDistinct clients
      → Agrees p (put p id none f) next (record l {
        callers = callers;
        threads = threads;
        clients = clients;
        clients_guard = none;
      })
  removes-Agrees f next l id callers threads clients agrees others left distinct = record {
    there = λ j c found. elim (Bool-cases (eqb id j)) [
      | inl hit ↦ absurd (none_some (rw hit at found))
      | inr miss ↦
          let (there, runs) = agrees.there j c (rw miss at found) in
          let other : id ≢ j = λ e. let hit = (eqb_iff id j).1 e in cc in
          (
            left j ∙ rw (miss, there) refl,
            record { worker = runs.worker; tx = runs.tx; thread = others j other ∙ runs.thread },
          )
    ];
    gone = λ j out. elim (Bool-cases (eqb id j)) [
      | inl hit ↦ left j ∙ rw hit refl
      | inr miss ↦ left j ∙ rw (miss, agrees.gone j (rw miss at out)) refl
    ];
    distinct = distinct;
    count = agrees.count;
  }
    where
      none_some : {x : Client p} → none ≡ some x → ⊥
      none_some e = cc
