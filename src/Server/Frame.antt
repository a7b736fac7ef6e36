-- ===== src/Server/Frame.antt =====
-- What a frame of src/server/server.cpp (`run_frame`, `send_state`) does.
use w3m.Prelude.{
  ℕ, ◌+◌, ◌≤◌, ◌≡◌, ◌↔◌, sym, ◌∙◌, inl, inr, true, not, List, [], ◌∷◌, ◌++◌, append-nil,
  append_assoc, arith, Bool-cases, codes, In, In-keep,
}
use w3m.Cryptography.{Tomcrypt}
use w3m.Network.Address.{Address}
use w3m.Network.Manager.{Datagram, send}
use w3m.Server.Clients.{Client, ClientMap, is_authenticated}
use w3m.Server.Handlers.{
  Environment, World, timeout, transmit, is_stale, remove_stale, authenticated_clients,
  states_payload, send_to_all, send_state, run_frame,
}
use w3m.Server.Guards.{run_frame-clients}

module _ (t : Tomcrypt) where
  open t use {Key}

  abbrev pub IsFresh : Environment → Client Key → Type 0
  IsFresh env client = env.now ≤ client.last_packet + timeout

  -- A frame keeps exactly the entries whose last packet is at most twenty seconds old, unchanged.
  pub In-run_frame :
      (env : Environment) (key : Address) (client : Client Key) (w : World Key)
      → In (key, client) (run_frame t env w).clients
        ↔ (In (key, client) w.clients × IsFresh env client)
  unfolding remove_stale is_stale
  In-run_frame env key client w =
      let kept = In-keep (λ entry. not (is_stale t env entry.1)) (key, client) w.clients in
      rw (run_frame-clients t env w)
        ((λ h. let (m, q) = kept.0 h in (m, fresh q)), λ (m, f). kept.1 (m, stays f))
    where
      fresh : not (is_stale t env client) ≡ true → IsFresh env client
      fresh q = ground arith

      stays : IsFresh env client → not (is_stale t env client) ≡ true
      stays f = ground arith

  -- The datagrams for one packet to every entry of a list.
  pub broadcast : Environment → List ℕ → ClientMap Key → List Datagram
  broadcast env payload [] = []
  broadcast env payload ((key, client) ∷ clients) =
      (send env.sendto key (codes "states") payload b' ').sent ++ broadcast env payload clients

  send_to_all-sent :
      (env : Environment) (payload : List ℕ) (clients : ClientMap Key) (w : World Key)
      → (send_to_all t env payload clients w).sent
        ≡ w.sent ++ broadcast env payload (authenticated_clients t clients)
  unfolding send_to_all transmit authenticated_clients broadcast
  send_to_all-sent env payload [] w = sym (append-nil w.sent)
  send_to_all-sent env payload ((key, client) ∷ clients) w =
      elim (Bool-cases (is_authenticated client)) [
        | inl e ↦
            rw (e, send_to_all)
              (send_to_all-sent env payload clients (transmit env key (codes "states") payload w)
                ∙ append_assoc w.sent _ _)
        | inr e ↦ rw (e, send_to_all) (send_to_all-sent env payload clients w)
      ]

  -- A frame sends one packet with the states to each authenticated client that is left, in the order
  -- of the map, and nothing else.
  pub run_frame-sent :
      (env : Environment) (w : World Key)
      → let left = remove_stale t env w.clients in
        (run_frame t env w).sent
        ≡ w.sent ++ broadcast env (states_payload t left) (authenticated_clients t left)
  unfolding run_frame send_state
  run_frame-sent env w =
      let left = remove_stale t env w.clients in
      send_to_all-sent env (states_payload t left) left (record w { clients = left })
