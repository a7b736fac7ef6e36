-- ===== src/Network/Manager/Tests.antt =====
-- Examples for src/common/network/manager.cpp, with a state that is a number.
use w3m.Prelude.{ℕ, ◌+◌, ◌≡◌, ◌↔◌, inl, refl, true, ◌==◌, [], ◌∷◌, ◌++◌, some, codes}
use w3m.Prelude.Outcome.{throws, out_of_bounds_read}
use w3m.Text.{to_lower}
use w3m.Network.Address.{unspecified, af_inet}
use w3m.Network.Manager.{
  Callback, CallbackMap, on, contain, is_divider, handle_data, read_packet, packet_of, magic, Bind,
  bind_socket,
}
use w3m.Network.Manager.Packets.{IsCommand, read_packet_iff}
use w3m.Network.Manager.Dispatch.{handle_data-on}
use w3m.Network.Manager.Sockets.{FirstOrNone, bind_socket_lem}

-- Adds to the state, and then fails.
abbrev faulty : Callback ℕ
faulty source payload s = (s + 1, throws out_of_bounds_read)

abbrev table : CallbackMap ℕ
table = (codes "kill", faulty) ∷ []

kill-IsCommand : IsCommand (codes "KILL")
kill-IsCommand = record { filled = refl; undivided = (refl, (refl, (refl, (refl, tt)))) }

same_name : to_lower (codes "Kill") ≡ to_lower (codes "KILL")
unfolding to_lower
same_name = refl

read_packet_iff_example :
    (read_packet (magic ++ codes "kill me") ≡ some (codes "kill", codes "me")) ↔ (
      (separator : ℕ) × (magic ++ codes "kill me" ≡ packet_of (codes "kill") (codes "me") separator)
      × (is_divider separator ≡ true)
      × IsCommand (codes "kill"))
read_packet_iff_example = read_packet_iff (magic ++ codes "kill me") (codes "kill") (codes "me")

handle_data-on_example :
    handle_data (on (codes "Kill") faulty []) unspecified (packet_of (codes "KILL") [] b' ') 3
    ≡ contain (faulty unspecified [] 3)
handle_data-on_example =
    handle_data-on [] (codes "Kill") faulty unspecified (codes "KILL") [] b' ' 3 kill-IsCommand refl
      same_name

-- Only one port is free.
abbrev busy : Bind
busy a = a.net_port == 522

bind_socket_lem_example : FirstOrNone busy af_inet 2565 (inl refl) (bind_socket busy af_inet 2565)
bind_socket_lem_example = bind_socket_lem busy af_inet 2565 (inl refl)
