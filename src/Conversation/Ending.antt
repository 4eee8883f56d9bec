-- ===== src/Conversation/Ending.antt =====
-- The end of a conversation: the server of lab3/es3 is sent QUIT.
use dp.Base.{ℕ, suc, ◌≡◌, refl, ap, ◌∙◌, arith, false, List}
use dp.Base.Scan.{IsText, starts_with}
use dp.Os.Calls.{Fd, Os}
use dp.Os.Io.{ok}
use dp.Os.Net.Laws.{is_open-shut}
use dp.Os.Reliable.{Reliable}
use dp.Sockwrap.Wrap.Laws.{close-Reaches}
use dp.FileServer.Service.{quit, parse_request, service_loop, answer, close_and_leave}
use dp.FileClient.Commands.{quit_command}
use dp.Conversation.{Carries, Listening}
use dp.Conversation.Serving.{deliver-Requested, request_read}

quit_command-IsText : IsText quit_command
quit_command-IsText =
    (omega arith, (omega arith, (omega arith, (omega arith, (omega arith, (omega arith, tt))))))

parse_request-quit_command : parse_request quit_command ≡ quit
unfolding parse_request starts_with
parse_request-quit_command = refl

module _ (os : Os) (r : Reliable os) (fuel : ℕ) (connfd : Fd) (buflen rounds : ℕ)
    (deliver : List ℕ → os.World → os.World)
    (net : Carries os r fuel connfd buflen rounds deliver) where
  -- The server leaves its loop, with the connection closed.
  pub server-quits :
      (requests : ℕ) (w : os.World)
      → Listening os r fuel connfd buflen rounds deliver w
      → (w' : os.World) × (service_loop os fuel connfd buflen rounds
            (suc requests)
            (deliver quit_command w)
          ≡ (ok tt, w'))
        × ((r.view w').is_open connfd ≡ false)
  unfolding answer close_and_leave
  server-quits requests w l =
      let (w1, run, moved, calm) =
        request_read os r fuel connfd buflen rounds deliver net quit_command
          (deliver quit_command w)
          (deliver-Requested os r fuel connfd buflen rounds deliver net quit_command w l)
          (omega (arith, l.serves.large)) quit_command-IsText in
      let (w2, closed, shut_now, calm') = close-Reaches os r connfd w1 in
      (
        w2,
        run requests ∙ rw parse_request-quit_command closed,
        ap (λ t. t.is_open connfd) shut_now ∙ is_open-shut connfd (r.view w1),
      )
