-- ===== src/Libraries.antt =====
-- The libraries outside the repository that the configuration and its readers use: JSON values of
-- nlohmann::json (Json/Api.antt) and of cpprest, and the rationals of nmos-cpp.
use nmos_sender_receiver_fra.Prelude.{ℕ, String, Option}
use nmos_sender_receiver_fra.Prelude.Int.{ℤ}
use nmos_sender_receiver_fra.Json.Api.{JsonApi}

pub record Libraries : Type 1 where
  pub json : JsonApi
  pub open json use *
  -- nmos::rational; its constructor throws for some pairs
  pub Rational : Type 0
  pub make_rational : ℤ → ℤ → Option Rational
  pub of_int : ℤ → Rational
  -- web::json::value, its null, and web::json::value::parse(j.dump()), which may throw
  pub Web : Type 0
  pub web_null : Web
  pub to_web : Json → Option Web
  -- a float of value zero, and nlohmann::json::parse, which may throw
  pub float_zero : Float
  pub parse : String → Option Json
  -- nmos::details::payload_type_video_default and the like
  pub payload_type_video_default : ℕ
  pub payload_type_audio_default : ℕ
  pub payload_type_data_default : ℕ
  pub payload_type_mux_default : ℕ
