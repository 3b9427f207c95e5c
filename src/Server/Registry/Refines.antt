-- ===== src/Server/Registry/Refines.antt =====
-- The map of the clients in src/quote_server.rs without its order: which number has which client.
use mathlib.Core.Option
use mathlib.Core.Path.{fun_ext}
use rust_quote_streamer.Base.{
  ◌⊎◌, ℕ, ◌+◌, ◌^◌, ◌<◌, ◌≡◌, ◌≢◌, refl, sym, ap, ◌∙◌, subst, false, List, [], ◌∷◌, Option, none,
  some, ◌>>=◌, Result, ok, err, inl, inr, if◌then◌else◌, eqb, eqb_iff, length, arith, Bool-cases,
  nat_key,
}
use rust_quote_streamer.HashMap.{get, get-map_values, map_values}
use rust_quote_streamer.Text.{Text}
use rust_quote_streamer.Platform.{Platform}
use rust_quote_streamer.Errors.{QuoteServerError}
use rust_quote_streamer.Client.{Client}
use rust_quote_streamer.Client.Thread.{Callback, Reads}
use rust_quote_streamer.Server.State.{QuoteServer}
use rust_quote_streamer.Server.Registry.{add_client, remove_client, notify_clients}
use rust_quote_streamer.Server.Registry.Valid.{
  IsValid, new_client, added, told, add_client_lem, notify_clients_lem,
}
use rust_quote_streamer.Server.Registry.Removal.{remove_client_lem, NotThere, LetGo}

module _ (p : Platform) where
  pub data RegistryCall : Type 0 where
    add : Reads p → List Text → Callback p → RegistryCall
    remove : Reads p → ℕ → RegistryCall
    notify : Reads p → RegistryCall

  -- The numbers that the calls gave out.
  abbrev pub given : Result QuoteServerError ℕ → List ℕ → List ℕ
  given (ok id) ids = id ∷ ids
  given (err e) ids = ids

  unfoldable pub run_calls : List RegistryCall → QuoteServer p → Option (QuoteServer p × List ℕ)
  run_calls [] s = some (s, [])
  run_calls (add reads tickers callback ∷ calls) s = do
    (t, r) ← add_client p reads tickers callback s
    (u, ids) ← run_calls calls t
    some (u, given r ids)
  run_calls (remove reads id ∷ calls) s = do (t, r) ← remove_client p reads id s; run_calls calls t
  run_calls (notify reads ∷ calls) s = do (t, r) ← notify_clients p reads s; run_calls calls t

  -- What the map says, without its order.
  abbrev pub View : Type 0
  View = ℕ → Option (Client p)

  abbrev pub view : QuoteServer p → View
  view s id = get id s.clients

  abbrev pub put : ℕ → Option (Client p) → View → View
  put id o f j = if eqb id j then o else f j

  -- The same calls on what the map says, with the next number.
  abbrev pub replay : List RegistryCall → ℕ → View → View × List ℕ
  replay [] next f = (f, [])
  replay (add reads tickers callback ∷ calls) next f =
      let (g, ids) = replay calls (next + 1) (put next (some (new_client p tickers callback)) f) in
      (g, next ∷ ids)
  replay (remove reads id ∷ calls) next f = replay calls next (put id none f)
  replay (notify reads ∷ calls) next f = replay calls next (λ id. Option.map (told p) (f id))

  -- A map that has `o` under a number, and is as before elsewhere.
  view-put :
      (id : ℕ) (o : Option (Client p)) (s t : QuoteServer p)
      → get id t.clients ≡ o
      → ((j : ℕ) → j ≢ id → get j t.clients ≡ get j s.clients)
      → view t ≡ put id o (view s)
  view-put id o s t found same = fun_ext λ j. elim (Bool-cases (eqb id j)) [
    | inl hit ↦ rw hit (subst (λ k. get k t.clients ≡ o) ((eqb_iff id j).0 hit) found)
    | inr miss ↦ rw miss (same j (λ e. ground arith))
  ]

  view-notified :
      (s t : QuoteServer p)
      → t ≡ record s { clients = map_values (λ _ c. told p c) s.clients }
      → view t ≡ (λ id. Option.map (told p) (view s id))
  view-notified s t same =
      fun_ext λ j.
        ap (λ (x : QuoteServer p). view x j) same ∙ get-map_values (λ _ c. told p c) j s.clients

  remove_client-result :
      (id : ℕ) (reads : Reads p) (s t : QuoteServer p)
      → NotThere p reads id s t ⊎ LetGo p reads id s t
      → (r : Result QuoteServerError (Unit {0})) × (remove_client p reads id s ≡ some (t, r))
  remove_client-result id reads s t (inl (missing, e, _)) = (ok tt, e)
  remove_client-result id reads s t (inr (c, dropped, r, found, e, _, _)) = (r, e)

  -- What a sequence of calls makes of a server.
  pub record Refines (calls : List RegistryCall) (s : QuoteServer p) : Type 0 where
    pub end : QuoteServer p
    pub returns : run_calls calls s ≡ some (end, (replay calls s.clients_count (view s)).1)
    pub same_view : view end ≡ (replay calls s.clients_count (view s)).0
    pub valid : IsValid p end

  -- A call that gives out no number.
  Refines-then :
      (call : RegistryCall) (calls : List RegistryCall) (s t : QuoteServer p)
      → run_calls (call ∷ calls) s ≡ run_calls calls t
      → replay calls s.clients_count (view t) ≡ replay (call ∷ calls) s.clients_count (view s)
      → t.clients_count ≡ s.clients_count
      → Refines calls t
      → Refines (call ∷ calls) s
  Refines-then call calls s t runs replays count r =
      let same = ap (λ n. replay calls n (view t)) count ∙ replays in
      record {
        end = r.end;
        returns = runs ∙ r.returns ∙ ap (λ (x : View × List ℕ). some (r.end, x.1)) same;
        same_view = r.same_view ∙ ap (λ (x : View × List ℕ). x.0) same;
        valid = r.valid;
      }

  -- Any sequence of calls of `add_client`, `remove_client` and `notify_clients` on a valid server,
  -- whose lock is not poisoned and whose count does not wrap around, returns; the numbers that it
  -- gives out and the clients that it leaves are those of the same sequence on a function from
  -- numbers to clients, where adding puts a started client under the next number, removing forgets
  -- the number, and notifying puts an `Update` at the end of the channel of every client that runs.
  pub registry-Refines :
      (calls : List RegistryCall) (s : QuoteServer p)
      → IsValid p s
      → s.clients_poisoned ≡ false
      → s.clients_count + length calls < 2 ^ 64
      → Refines calls s
  unfolding run_calls
  registry-Refines [] s v lock room = record {
    end = s;
    returns = refl;
    same_view = refl;
    valid = v;
  }
  registry-Refines (add reads tickers callback ∷ calls) s v lock room =
      let (e, fresh, found, same, v') =
        add_client_lem p reads tickers callback s v lock (omega arith) in
      let r = registry-Refines calls (added p tickers callback s) v' lock (omega arith) in
      let seen =
        view-put s.clients_count (some (new_client p tickers callback)) s
          (added p tickers callback s) found same in
      record {
        end = r.end;
        returns = rw e (
            rw r.returns (
              ap (λ f. some (r.end, s.clients_count ∷ (replay calls (s.clients_count + 1) f).1))
                seen));
        same_view = r.same_view ∙ ap (λ f. (replay calls (s.clients_count + 1) f).0) seen;
        valid = r.valid;
      }
  registry-Refines (remove reads id ∷ calls) s v lock room =
      let (t, w, how) = remove_client_lem p reads id s v lock in
      let (r, e) = remove_client-result id reads s t how in
      Refines-then (remove reads id) calls s t
        (unfold run_calls in ap (λ o. o >>= λ x. run_calls calls x.0) e)
        (ap (replay calls s.clients_count) (view-put id none s t w.gone w.others)) w.count
        (registry-Refines calls t w.valid (w.lock ∙ lock) (omega (arith, w.count)))
  registry-Refines (notify reads ∷ calls) s v lock room =
      let (t, e, same, v') = notify_clients_lem p reads s v lock in
      let count : t.clients_count ≡ s.clients_count =
        ap (λ (x : QuoteServer p). x.clients_count) same in
      Refines-then (notify reads) calls s t
        (unfold run_calls in ap (λ o. o >>= λ x. run_calls calls x.0) e)
        (ap (replay calls s.clients_count) (view-notified s t same)) count
        (registry-Refines calls t v' (ap (λ (x : QuoteServer p). x.clients_poisoned) same ∙ lock)
          (omega arith))

  -- Two servers whose maps say the same, in whatever order, cannot be told apart by any sequence of
  -- calls: the numbers that it gives out are the same, and so is what the maps say afterwards.
  order_lem :
      (calls : List RegistryCall) (s t : QuoteServer p) (rs : Refines calls s)
      (rt : Refines calls t)
      → s.clients_count ≡ t.clients_count
      → ((id : ℕ) → get id s.clients ≡ get id t.clients)
      → (view rs.end ≡ view rt.end)
        × ((replay calls s.clients_count (view s)).1 ≡ (replay calls t.clients_count (view t)).1)
  order_lem calls s t rs rt count same =
      let both : replay calls s.clients_count (view s) ≡ replay calls t.clients_count (view t) =
        ap (λ n. replay calls n (view s)) count
        ∙ ap (replay calls t.clients_count) (fun_ext same) in
      (
        rs.same_view ∙ ap (λ (x : View × List ℕ). x.0) both ∙ sym rt.same_view,
        ap (λ (x : View × List ℕ). x.1) both,
      )
