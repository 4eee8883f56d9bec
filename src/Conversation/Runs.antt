-- ===== src/Conversation/Runs.antt =====
-- A conversation about two files.
use dp.Base.{◌≡◌, refl, none, [], ◌∷◌}
use dp.Os.Net.{arrive}
use dp.Os.Loopback.{Machine}
use dp.FileClient.Batch.{
  ask, after_wait, take_answer, receive_argument, receive_opened, write_pieces, write_piece,
}
use dp.FileClient.Session.{first_byte}
use dp.FileServer.SendFile.Sent.{header, stat_of}
use dp.Base.Words.{htonl_bytes, ntohl_bytes}
use dp.Sockwrap.Wrap
use dp.Os.Loopback.{read_with}
use dp.Os.Net.{consume, created}
use dp.Sockwrap.Exact.{readn_or_exit, readn, readn_loop, readn_round, or_exit_read}
use dp.Sockwrap.Exact.{writen, put_loop, writen_round}
use dp.Os.Loopback.{write_with}
use dp.Os.Net.{emit}
use dp.Conversation.{client_turn}
use dp.Conversation.Bench.{scripted_os, scripted_reliable, bring}
use dp.Conversation.Shelf.{long_file, short_file, first_name, machine, answer}

-- What comes while the client waits.
abbrev client_start : Machine
client_start = machine (λ name. none) (answer long_file ∷ answer short_file ∷ [])

-- The descriptor of the first file is used again for the second one.
descriptor_reused :
    (client_turn scripted_os scripted_reliable 300 3 16 20 first_name client_start).next_fd
    ≡ client_start.next_fd
unfolding writen put_loop writen_round write_with emit ask Wrap.select Wrap.retry_select bring
    arrive after_wait take_answer first_byte readn_or_exit readn readn_loop readn_round or_exit_read
    read_with consume receive_argument receive_opened write_pieces write_piece created Wrap.write
    Wrap.check_count Wrap.close Wrap.check_done Wrap.read Wrap.retry_read header stat_of htonl_bytes
    ntohl_bytes
descriptor_reused = refl
