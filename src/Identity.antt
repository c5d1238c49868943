-- ===== src/Identity.antt =====
-- src/identity.c and include/thalovant/identity.h: the identity of a device. A char array holds the
-- bytes before its terminator.
pub mod Parse
mod Sound
mod Examples
use thalovant_embedded_c.Base.{ℕ, Bool, Bytes}

-- thalovant_mqtt_credentials
pub record MqttCredentials : Type 0 where
  pub present : Bool
  pub endpoint : Bytes
  pub username : Bytes
  pub password : Bytes
  pub tls : Bool
  pub qos : ℕ
  pub topic_prefix : Bytes

-- thalovant_identity
pub record DeviceIdentity : Type 0 where
  pub access_key : Bytes
  pub password : Bytes
  pub crypto_key : Bytes
  pub site_id : Bytes
  pub default_master : Bytes
  pub default_path : Bytes
  pub public_key : Bytes
  pub default_port : ℕ
  pub mqtt : MqttCredentials
