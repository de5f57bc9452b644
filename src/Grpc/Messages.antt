-- ===== src/Grpc/Messages.antt =====
-- The messages of mockgo-grpc/matchstore/matchstore.proto, and the functions of
-- mockgo-grpc/matchstore/matchstore.go that map the requests in the store to them and back.
pub mod Roundtrip
use mockgo_server.Prelude.{
  ℕ, ◌-◌, ◌%◌, ◌^◌, String, List, [], ◌∷◌, Option, none, some, GoMap, insert, ltb, if◌then◌else◌,
}
use mockgo_server.Prelude.Int.{ℤ, pos, negsuc}
use mockgo_server.Matches.{Match, Mismatch, ActualRequest, ActualResponse}

pub record HeaderValue : Type 0 where
  pub val : List String

pub record ProtoRequest : Type 0 where
  pub method : String
  pub url : String
  pub header : GoMap HeaderValue
  pub host : String

pub record ProtoResponse : Type 0 where
  pub status_code : ℤ
  pub header : GoMap HeaderValue

-- A part that a message lacks is a nil pointer. `S` is the type of the messages for times.
pub record ProtoMatch (S : Type 0) : Type 0 where
  pub endpoint_id : String
  pub timestamp : S
  pub actual_request : Option ProtoRequest
  pub actual_response : Option ProtoResponse

pub record ProtoMismatch (S : Type 0) : Type 0 where
  pub mismatch_details : String
  pub timestamp : S
  pub actual_request : Option ProtoRequest

-- What is used of package timestamppb: New and AsTime, which also takes a nil pointer.
pub record Timestamps : Type 1 where
  pub Stamp : Type 0
  pub stamp : ℕ → Stamp
  pub as_time : Stamp → ℕ

-- The number that 32 bits stand for in two's complement, and the conversion int32(n).
signed32 : ℕ → ℤ
signed32 bits = if ltb bits (2 ^ 31) then pos bits else negsuc (2 ^ 32 - 1 - bits)

unfoldable pub int32 : ℤ → ℤ
unfolding signed32
int32 (pos n) = signed32 (n % 2 ^ 32)
int32 (negsuc n) = signed32 (2 ^ 32 - 1 - n % 2 ^ 32)

-- The loop of mapHeader and of mapProtoHeader, with the map so far.
unfoldable pub convert : {V W : Type 0} → (V → W) → GoMap W → GoMap V → GoMap W
convert f res [] = res
convert f res ((k, v) ∷ header) = convert f (insert k (f v) res) header

-- mapHeader
unfoldable pub map_header : GoMap (List String) → GoMap HeaderValue
unfolding convert
map_header header = convert (λ val. record { val = val }) [] header

-- mapProtoHeader
unfoldable pub map_proto_header : GoMap HeaderValue → GoMap (List String)
unfolding convert
map_proto_header header = convert (λ (value : HeaderValue). value.val) [] header

-- The requests in the messages.
unfoldable pub map_request : ActualRequest → ProtoRequest
unfolding map_header
map_request r = record {
  method = r.method;
  url = r.url;
  header = map_header r.header;
  host = r.host;
}

unfoldable pub map_proto_request : ProtoRequest → ActualRequest
unfolding map_proto_header
map_proto_request r = record {
  method = r.method;
  url = r.url;
  header = map_proto_header r.header;
  host = r.host;
}

-- The responses in the messages.
unfoldable pub map_response : ActualResponse → ProtoResponse
unfolding map_header int32
map_response r = record { status_code = int32 r.status_code; header = map_header r.header }

unfoldable pub map_proto_response : ProtoResponse → ActualResponse
unfolding map_proto_header
map_proto_response r = record { status_code = r.status_code; header = map_proto_header r.header }

module _ (times : Timestamps) where
  open times use {Stamp, stamp, as_time}

  -- mapMatch, which panics where the match has no response yet
  unfoldable pub map_match : Match → Option (ProtoMatch Stamp)
  unfolding map_request map_response
  map_match m = elim m.actual_response [
    | none ↦ none
    | some response ↦ some (record {
      endpoint_id = m.endpoint_id;
      timestamp = stamp m.timestamp;
      actual_request = some (map_request m.actual_request);
      actual_response = some (map_response response);
    })
  ]

  -- mapProtoMatch, which panics where the message has no request or no response
  unfoldable pub map_proto_match : ProtoMatch Stamp → Option Match
  unfolding map_proto_request map_proto_response
  map_proto_match m = elim m.actual_request [
    | none ↦ none
    | some request ↦ elim m.actual_response [
      | none ↦ none
      | some response ↦ some (record {
        endpoint_id = m.endpoint_id;
        timestamp = as_time m.timestamp;
        actual_request = map_proto_request request;
        actual_response = some (map_proto_response response);
      })
    ]
  ]

  -- mapMismatch
  unfoldable pub map_mismatch : Mismatch → ProtoMismatch Stamp
  unfolding map_request
  map_mismatch m = record {
    mismatch_details = m.mismatch_details;
    timestamp = stamp m.timestamp;
    actual_request = some (map_request m.actual_request);
  }

  -- mapProtoMismatch, which panics where the message has no request
  unfoldable pub map_proto_mismatch : ProtoMismatch Stamp → Option Mismatch
  unfolding map_proto_request
  map_proto_mismatch m = elim m.actual_request [
    | none ↦ none
    | some request ↦ some (record {
      mismatch_details = m.mismatch_details;
      timestamp = as_time m.timestamp;
      actual_request = map_proto_request request;
    })
  ]
