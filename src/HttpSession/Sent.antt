-- ===== src/HttpSession/Sent.antt =====
-- sendResponse of src/http/http_session.cpp.
use net_ninja.Common.{ℕ, List, length}
use net_ninja.Http.{Text}
use net_ninja.Http.Headers.{Sign}
use net_ninja.Http.Messages.{HttpResponse, dump_response}
use net_ninja.Stream.{Count}
use net_ninja.Stream.Sent.{IsSink, IsSent, write_fix_size-IsSent}
use net_ninja.HttpSession.{send_response}

-- For a stream that takes at least one and at most all bytes of a block, from its front, the response
-- is sent as `dump` prints it, behind what was sent before; or a part of its front is, and the answer
-- is the int of the last write.
pub send_response-IsSent :
    {State : Type 0} (write : State → List ℕ → Count × State) (strcasecmp : Text → Text → Sign)
    (decimal : ℕ → Text) (delivered : State → List ℕ) (sink : IsSink write delivered) (s : State)
    (rsp : HttpResponse)
    → IsSent write delivered sink s
        (length (dump_response strcasecmp decimal rsp))
        (dump_response strcasecmp decimal rsp)
        (send_response write strcasecmp decimal s rsp)
unfolding send_response
send_response-IsSent write strcasecmp decimal delivered sink s rsp =
    write_fix_size-IsSent write delivered sink s (dump_response strcasecmp decimal rsp)
