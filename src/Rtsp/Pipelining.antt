-- ===== src/Rtsp/Pipelining.antt =====
-- `_handle_client` of rtsp_server.py on what a client has sent before its request was read.
use hass_comelit_intercom_lo.Base.{
  ℕ, ◌+◌, ◌≤◌, ◌≡◌, refl, ap, Bool, true, false, Option, none, some, [], ◌∷◌, ◌++◌, arith, if-cases,
  length, length-append,
}
use hass_comelit_intercom_lo.Base.Bytes.{Bytes, Str}
use hass_comelit_intercom_lo.Base.Text.{starts_with, contains}
use hass_comelit_intercom_lo.Base.Utf8.{decode_utf8}
use hass_comelit_intercom_lo.Rtsp.Answers.{
  Answered, replied, refused, delayed, unreadable, respond_answers,
}
use hass_comelit_intercom_lo.Rtsp.Clients.{TcpClient}
use hass_comelit_intercom_lo.Rtsp.Requests.{
  Request, Answer, Next, again, awaits_video, streams, leaves, respond, parse_request, crlf,
}
use hass_comelit_intercom_lo.Rtsp.Server.{Server}
use hass_comelit_intercom_lo.Rtsp.Handler.{
  Phase, reading, awaiting_video, streaming, closed, Connection, finish, while_running, go_on,
  after, on_request, on_bytes,
}

starts_with-append : (word s t : Str) → starts_with word s ≡ true → starts_with word (s ++ t) ≡ true
unfolding starts_with
starts_with-append [] s t h = refl
starts_with-append (c ∷ word) [] t h = cc
starts_with-append (c ∷ word) (d ∷ s) t h = ground (arith, starts_with-append word s t)

contains_nil : (word t : Str) → contains word [] ≡ true → contains word t ≡ true
unfolding contains
contains_nil [] [] h = refl
contains_nil [] (c ∷ t) h = refl
contains_nil (w ∷ word) t h = cc

pub contains-append : (word s t : Str) → contains word s ≡ true → contains word (s ++ t) ≡ true
unfolding contains
contains-append word [] t h = contains_nil word t h
contains-append word (c ∷ s) t h =
    ground (arith, starts_with-append word (c ∷ s) t, contains-append word s t)

replies_at_most_one :
    (host : Str) (r : Request) (c : TcpClient) (s : Server) (a : Answer)
    → Answered host r c s a
    → length a.client.written ≤ length c.written + 1
replies_at_most_one host r c s a (replied extra body b e) =
    omega (arith, ap length e, length-append {0} c.written (_ ∷ []))
replies_at_most_one host r c s a (refused b e n) = omega (arith, ap length e)
replies_at_most_one host r c s a (delayed m n e x) =
    omega (arith, ap (λ (c : TcpClient). length c.written) e)
replies_at_most_one host r c s a (unreadable x m n e l) =
    omega (arith, ap (λ (c : TcpClient). length c.written) e)

-- Nothing of what was read is kept.
abbrev pub IsEmptied : Phase → Type 0
IsEmptied (reading raw) = raw ≡ []
IsEmptied (awaiting_video cseq) = Unit {0}
IsEmptied streaming = Unit {0}
IsEmptied closed = Unit {0}

abbrev pub Once : Connection → Connection × Server → Type 0
Once k (k', s') = (length k'.client.written ≤ length k.client.written + 1) × IsEmptied k'.phase

while_running-Once :
    (registered : Bool) (phase : Phase) (k j : Connection) (s : Server)
    → length k.client.written ≤ length j.client.written + 1
    → IsEmptied phase
    → Once j (while_running registered phase k s)
unfolding while_running finish
while_running-Once registered phase k j s h e =
    if-cases (Once j) s.running _ _ (λ r. (h, e)) (λ r. (h, tt))

go_on-Once :
    (next : Next) (k j : Connection) (s : Server)
    → length k.client.written ≤ length j.client.written + 1
    → Once j (go_on next k s)
unfolding go_on finish
go_on-Once again k j s h = while_running-Once false (reading []) k j s h refl
go_on-Once (awaits_video cseq) k j s h = (h, tt)
go_on-Once streams k j s h = while_running-Once true streaming k j s h tt
go_on-Once leaves k j s h = (h, tt)

on_request-Once :
    (secs frac : ℕ) (request : Option Request) (k : Connection) (s : Server)
    → Once k (on_request secs frac request k s)
unfolding on_request after finish
on_request-Once secs frac none k s = (omega arith, tt)
on_request-Once secs frac (some r) k s =
    let a = respond secs frac k.host r k.client s in
    go_on-Once a.next (record k { client = a.client }) k a.server
      (replies_at_most_one k.host r k.client s a (respond_answers k.host r k.client s secs frac))

-- A client that sends on without waiting loses requests: where the bytes that were read hold a whole
-- request, at most one reply is written and none of the bytes are kept, whatever follows the request.
pub on_bytes-Once :
    (secs frac : ℕ) (first others : Bytes) (k : Connection) (s : Server)
    → contains (crlf ++ crlf) first ≡ true
    → Once k (on_bytes secs frac (first ++ others) k s)
unfolding on_bytes
on_bytes-Once secs frac first others k s h =
    if-cases (Once k) (contains (crlf ++ crlf) (first ++ others)) _ _
      (λ e. on_request-Once secs frac (parse_request (decode_utf8 (first ++ others))) k s)
      (λ e. cc (contains-append (crlf ++ crlf) first others h))
