-- ===== src/Multiplayer/Handshake.antt =====
-- The handshake between a player (src/client/module/scripting_experiments.cpp) and the master server
-- (src/server/server.cpp), with the signatures of src/common/utils/cryptography.cpp.
use w3m.Prelude.{
  ℕ, ◌^◌, ◌<◌, ◌≡◌, sym, ap, ◌∙◌, true, false, List, [], ◌++◌, append-nil, append_assoc, some,
  is_empty, length, codes,
}
use w3m.Prelude.Outcome.{returns}
use w3m.ByteBuffer.{write, write_object, empty_buffer}
use w3m.ByteBuffer.Objects.{u32}
use w3m.ByteBuffer.RoundTrip.{string_bytes, read_string-Reads, write_string-buffer}
use w3m.Game.{protocol, Player, player_layout}
use w3m.Cryptography.{
  Tomcrypt, pk_public, serialize, deserialize, get_hash, sign_message, verify_message,
}
use w3m.Network.Address.{Address, address_eq, is_supported}
use w3m.Network.Address.Equality.{address_eq_refl}
use w3m.Network.Manager.{SendTo, send}
use w3m.Server.Clients.{Client, client_at, is_authenticated}
use w3m.Server.Handlers.{
  Environment, World, request_payload, handle_player_state, handle_authentication_response,
}
use w3m.Server.Messages.{IsPayload, state_payload, response_payload, with_protocol_lem}
use w3m.Server.Takeover.{request_payload-bytes}
use w3m.Server.Handshake.{handshake_lem}
use w3m.Multiplayer.{Sent, read_nonce, auth_response, receive_auth_request}

module _ (t : Tomcrypt) where
  open t use {Key}

  auth_response-response_payload :
      (key : Key) (nonce : List ℕ)
      → length (serialize t pk_public key) < 2 ^ 32
      → length (sign_message t key nonce) < 2 ^ 32
      → auth_response t key nonce
        ≡ response_payload (serialize t pk_public key) (sign_message t key nonce)
  unfolding auth_response response_payload write_object write empty_buffer
  auth_response-response_payload key nonce hk hs =
      write_string-buffer _ (sign_message t key nonce) hs
      ∙ ap (λ b. b ++ string_bytes (sign_message t key nonce))
          (write_string-buffer _ (serialize t pk_public key) hk)
      ∙ append_assoc (u32.encode protocol) (string_bytes (serialize t pk_public key))
          (string_bytes (sign_message t key nonce))

  -- A player answers a request with a nonce of less than 4 GiB from the master server's address, which is
  -- supported, without an error, and sends that address one response, with its key and a signature of
  -- the nonce.
  pub receive_auth_request-request_payload :
      (sendto : SendTo) (master : Address) (key : Key) (c : Client Key) (sent : Sent)
      → is_supported master ≡ true
      → IsPayload (request_payload t c)
      → length c.authentication_nonce < 2 ^ 32
      → receive_auth_request t sendto master key master (request_payload t c) sent ≡ (
        sent
            ++ (send sendto master
                (codes "authResponse")
                (auth_response t key c.authentication_nonce)
                b' ').sent,
        returns tt,
      )
  unfolding receive_auth_request read_nonce
  receive_auth_request-request_payload sendto master key c sent s h n =
      let self : address_eq master master ≡ true = address_eq_refl master ∙ s in
      let (d, r, left, v) =
        with_protocol_lem read_nonce (string_bytes c.authentication_nonce) h
          (request_payload-bytes t c n) in
      let (d', r', left', v') =
        read_string-Reads d v [] c.authentication_nonce n
          (left ∙ sym (append-nil (string_bytes c.authentication_nonce))) in
      rw (self, r, r')

  same_hash :
      (public_key key : Key)
      → t.ecc_ansi_x963_export public_key ≡ t.ecc_ansi_x963_export key
      → get_hash t public_key ≡ get_hash t key
  unfolding get_hash
  same_hash public_key key e = rw e

  restored :
      (key public_key : Key) (text : List ℕ)
      → t.ecc_export pk_public key ≡ some text
      → t.ecc_import text ≡ some public_key
      → deserialize t (serialize t pk_public key) ≡ some public_key
  unfolding deserialize serialize
  restored key public_key text e i = rw e i

  -- For a player's key whose public part can be exported, is imported again as a key of its own, has the
  -- same public point as the player's key and verifies what the player's key signs, where the server
  -- has random bytes and payloads are bytes of the sizes that the buffers hold: a player at a supported
  -- address that is not authenticated, sends a state packet with its key's hash as the guid, and
  -- answers the request that the server then holds for it, is authenticated under the public key.
  pub handshake-auth_response :
      (key public_key : Key) (text : List ℕ)
      → t.ecc_export pk_public key ≡ some text
      → t.ecc_import text ≡ some public_key
      → t.ecc_ansi_x963_export public_key ≡ t.ecc_ansi_x963_export key
      → ((digest : List ℕ)
          → t.ecc_verify_hash public_key digest (t.ecc_sign_hash key digest) ≡ true)
      → (env later : Environment) (source : Address) (player : Player) (tail state : List ℕ)
        (w : World Key)
      → is_supported source ≡ true
      → is_authenticated (client_at source w.clients) ≡ false
      → is_empty env.random ≡ false
      → player.guid ≡ get_hash t key
      → IsPayload state
      → player_layout.IsObject player
      → state ≡ state_payload player ++ tail
      → let between = (handle_player_state t env source state w).0 in
        let nonce = (client_at source between.clients).authentication_nonce in
        IsPayload (auth_response t key nonce)
        → length (serialize t pk_public key) < 2 ^ 32
        → length (sign_message t key nonce) < 2 ^ 32
        → (client_at source
            (handle_authentication_response t later source
              (auth_response t key nonce)
              between).0.clients).public_key
          ≡ some public_key
  handshake-auth_response key public_key text export import point signed env later source player
        tail state w s unknown random guid hs object es hr hk hg =
      let between = (handle_player_state t env source state w).0 in
      let nonce = (client_at source between.clients).authentication_nonce in
      handshake_lem t env later source player public_key (serialize t pk_public key)
        (sign_message t key nonce) tail state [] (auth_response t key nonce) w s unknown random hs
        object es hr hk hg (auth_response-response_payload key nonce hk hg ∙ sym (append-nil _))
        (restored key public_key text export import) (guid ∙ sym (same_hash public_key key point))
        (unfold verify_message sign_message in signed (t.sha512 nonce))
