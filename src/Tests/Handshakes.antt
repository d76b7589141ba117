-- ===== src/Tests/Handshakes.antt =====
-- Handshakes as lists of fields, whose names are compared as they are.
use Prim.Native.String.{String}
use text.Mathlib.Text.{◌==◌ as str_eq}
use text.Mathlib.TextEquality.{eq_iff}
use text.Mathlib.TextPositions.{eq_refl}
use radrpc.Handshake.{Fields, Lawful, first_of, decorate}
use radrpc.Handshake.Decorated.{value_after, find-decorate}
use radrpc.ServerSession.Establish.{Ends}
use radrpc.Examples.Basic.{bound_funcs, default_session_cfg}
use radrpc.Examples.Advanced.{client_handshake}
use radrpc.Examples.Advanced.Admission.{Admitted, client_handshake-Admitted}
use radrpc.Types.{default_client_timeout}
use radrpc.Client.{Session, Client}
use radrpc.Client.Connecting
use radrpc.Client.Connecting.{connecting}
use radrpc.Client.Calls.{Call, connects, sends, disconnects}
use radrpc.Client.Handshakes.{World, greeting}
use radrpc.Client.Connecting.Ending.{ending}
use radrpc.Tests.Connecting.{quiet, unconnected_client, waits}
use radrpc.Prelude.{
  ◌≡◌, ◌≢◌, refl, true, false, Option, none, some, List, [], ◌∷◌, ◌++◌, arith, if◌then◌else◌,
}

abbrev FieldList : Type 0
FieldList = List (String × String)

abbrev find : String → FieldList → Option String
find k [] = none
find k ((n, v) ∷ h) = if str_eq n k then some v else find k h

abbrev without : String → FieldList → FieldList
without k [] = []
without k ((n, v) ∷ h) = if str_eq n k then without k h else (n, v) ∷ without k h

abbrev set : String → String → FieldList → FieldList
set n v h = without n h ++ (n, v) ∷ []

find-append_end :
    (n k v : String) (h : FieldList)
    → find k (h ++ (n, v) ∷ []) ≡ (if str_eq n k then first_of (find k h) v else find k h)
find-append_end n k v [] = ground arith
find-append_end n k v ((m, u) ∷ h) = ground (arith, find-append_end n k v h)

find-set :
    (n k v : String) (h : FieldList)
    → find k (set n v h) ≡ (if str_eq n k then some v else find k h)
find-set n k v [] = ground arith
find-set n k v ((m, u) ∷ h) = ground (arith, eq_iff m n, eq_iff m k, eq_iff n k, find-set n k v h)

abbrev field_list : Fields FieldList
field_list = record {
  empty = [];
  find = find;
  insert = λ n v h. h ++ (n, v) ∷ [];
  set = set;
  each = λ h. h;
  is_known = λ n. str_eq n "User-Agent";
  same = str_eq;
}

field_list-Lawful : Lawful field_list
field_list-Lawful = record {
  same_refl = eq_refl;
  find-empty = λ k. refl;
  find-insert = find-append_end;
  find-set = find-set;
  each-empty = refl;
  each-insert = λ n v h e. refl;
}

abbrev upgrade : FieldList
upgrade = ("Host", "127.0.0.1") ∷ ("Upgrade", "websocket") ∷ []

find-decorate_example :
    find "key" (decorate field_list (("key", "a") ∷ ("key", "b") ∷ []) upgrade)
    ≡ value_after field_list field_list-Lawful "key" (("key", "a") ∷ ("key", "b") ∷ []) none
find-decorate_example =
    find-decorate field_list field_list-Lawful "key" (("key", "a") ∷ ("key", "b") ∷ []) upgrade

abbrev no_errors : Ends
no_errors = record {
  ssl_ec = false;
  bytes_used = 0;
  read_ec = false;
  left = 0;
  accept_ec = false;
  now = 3;
}

abbrev guess : FieldList
guess = ("User-Agent", "curl") ∷ ("key", "1234") ∷ []

guess-wrong : find "key" guess ≢ some "xxxxxxxxxx"
guess-wrong h = absurd (cc)

client_handshake-Admitted_example :
    Admitted field_list true no_errors default_session_cfg bound_funcs 0
      (decorate field_list (client_handshake field_list) upgrade)
    × Admitted field_list false no_errors default_session_cfg bound_funcs 0 guess
client_handshake-Admitted_example =
    client_handshake-Admitted field_list field_list-Lawful refl refl no_errors default_session_cfg
      bound_funcs 0 upgrade guess refl guess-wrong

-- The facade with its own closing of a session.
abbrev closing : Session Connecting.World
closing = ending waits quiet

-- The handshakes as Beast makes them.
abbrev host : FieldList
host = ("Host", "127.0.0.1") ∷ []

abbrev facade : Session (World FieldList)
facade = greeting field_list host true [] (connecting true [] default_client_timeout closing)

abbrev greeting_client : Client (World FieldList)
greeting_client = record {
  session = record {
    session = unconnected_client.session;
    m_req_handshake = [];
    res_handshake = [];
    requests = [];
    answers = [];
  };
  bound_funcs = [];
  m_exit = false;
}

-- The first connection fails before its handshake, and the second succeeds.
abbrev calls : List Call
calls = connects ∷ connects ∷ sends 7 (1 ∷ []) ∷ disconnects ∷ []
