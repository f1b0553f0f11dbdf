-- ===== src/Client/Builder.antt =====
-- zakura-grpc-client/src/builder.rs, and the types of lib.rs that it builds. The endpoint and its
-- transport settings are Tonic's and are left out, as is the channel.
use zakura_grpc.Common.{
  ℕ, ◌*◌, Bool, Option, none, some, String, Result, ok, err, ◌>>=◌, if◌then◌else◌,
}
use zakura_grpc.Geyser.Auth.{RequestMetadata}
use zakura_grpc.Client.Reconnect.{ReconnectConfig}

-- `tonic::codec::CompressionEncoding`
pub data CompressionEncoding : Type 0 where
  gzip deflate zstd : CompressionEncoding

-- An `AsciiMetadataValue` is its text.
pub record MetadataInterceptor : Type 0 where
  pub x_token : Option String
  pub subscription_id : Option String

abbrev pub insert_header : Option String → Option String → Option String
insert_header none old = old
insert_header (some value) old = some value

-- `call` of the interceptor
unfoldable pub call : MetadataInterceptor → RequestMetadata → RequestMetadata
call i request = record request {
  x_token = insert_header i.x_token request.x_token;
  x_subscription_id = insert_header i.subscription_id request.x_subscription_id;
}

pub record ClientOptions : Type 0 where
  pub send_compressed : Option CompressionEncoding
  pub accept_compressed : Option CompressionEncoding
  pub max_decoding_message_size : Option ℕ
  pub max_encoding_message_size : Option ℕ

pub record ZakuraGrpcClient : Type 0 where
  pub interceptor : MetadataInterceptor
  pub options : ClientOptions
  pub reconnect : Option ReconnectConfig

pub data ZakuraGrpcBuilderError : Type 0 where
  metadata : String → ZakuraGrpcBuilderError
  transport : String → ZakuraGrpcBuilderError

pub record ZakuraGrpcBuilder : Type 0 where
  pub x_token : Option String
  pub subscription_id : Option String
  pub send_compressed : Option CompressionEncoding
  pub accept_compressed : Option CompressionEncoding
  pub max_decoding_message_size : Option ℕ
  pub max_encoding_message_size : Option ℕ
  pub reconnect : Option ReconnectConfig

-- `ZakuraGrpcBuilder::new`
abbrev pub new_builder : ZakuraGrpcBuilder
new_builder = record {
  x_token = none;
  subscription_id = none;
  send_compressed = none;
  accept_compressed = none;
  max_decoding_message_size = some (50 * 1024 * 1024);
  max_encoding_message_size = some (50 * 1024 * 1024);
  reconnect = none;
}

unfoldable pub build : ZakuraGrpcBuilder → ZakuraGrpcClient
build b = record {
  interceptor = record { x_token = b.x_token; subscription_id = b.subscription_id };
  options = record {
    send_compressed = b.send_compressed;
    accept_compressed = b.accept_compressed;
    max_decoding_message_size = b.max_decoding_message_size;
    max_encoding_message_size = b.max_encoding_message_size;
  };
  reconnect = b.reconnect;
}

module _ (valid_metadata : String → Bool) where
  -- `value.map(TryInto::try_into).transpose()`
  unfoldable pub metadata_value : Option String → Result ZakuraGrpcBuilderError (Option String)
  metadata_value none = ok none
  metadata_value (some value) =
      if valid_metadata value then ok (some value) else err (ZakuraGrpcBuilderError.metadata value)

  unfoldable pub x_token :
      Option String → ZakuraGrpcBuilder → Result ZakuraGrpcBuilderError ZakuraGrpcBuilder
  x_token value b = metadata_value value >>= λ checked. ok (record b { x_token = checked })

  unfoldable pub subscription_id :
      Option String → ZakuraGrpcBuilder → Result ZakuraGrpcBuilderError ZakuraGrpcBuilder
  subscription_id value b =
      metadata_value value >>= λ checked. ok (record b { subscription_id = checked })

abbrev pub send_compressed : CompressionEncoding → ZakuraGrpcBuilder → ZakuraGrpcBuilder
send_compressed encoding b = record b { send_compressed = some encoding }

abbrev pub accept_compressed : CompressionEncoding → ZakuraGrpcBuilder → ZakuraGrpcBuilder
accept_compressed encoding b = record b { accept_compressed = some encoding }

abbrev pub max_decoding_message_size : ℕ → ZakuraGrpcBuilder → ZakuraGrpcBuilder
max_decoding_message_size limit b = record b { max_decoding_message_size = some limit }

abbrev pub max_encoding_message_size : ℕ → ZakuraGrpcBuilder → ZakuraGrpcBuilder
max_encoding_message_size limit b = record b { max_encoding_message_size = some limit }

abbrev pub set_reconnect_config : ReconnectConfig → ZakuraGrpcBuilder → ZakuraGrpcBuilder
set_reconnect_config config b = record b { reconnect = some config }
