-- ===== src/Proto.antt =====
-- The messages of api/proto/acp.proto. A response's `error` is `none` where the text is empty, and a
-- message's `hlc` is `none` where the field is absent. The generated code is not modelled.

use acp_kv.Prelude.{Bool, Option, String, ℤ}
use acp_kv.Failure.{Error}
use acp_kv.Hlc.{Hlc}
use acp_kv.Storage.{Bytes}

pub record PutRequest : Type 0 where
  pub key : String
  pub value : Bytes

pub record PutResponse : Type 0 where
  pub success : Bool
  pub error : Option Error
  pub version : ℤ
  pub timestamp : ℤ
  pub hlc : Option Hlc

pub record GetRequest : Type 0 where
  pub key : String

pub record GetResponse : Type 0 where
  pub found : Bool
  pub value : Bytes
  pub version : ℤ
  pub timestamp : ℤ
  pub error : Option Error
  pub hlc : Option Hlc
  pub is_stale : Bool

pub record ReplicateRequest : Type 0 where
  pub key : String
  pub value : Bytes
  pub version : ℤ
  pub timestamp : ℤ
  pub source_node_id : String
  pub hlc : Option Hlc

pub record ReplicateResponse : Type 0 where
  pub success : Bool
  pub error : Option Error
  pub node_id : String

pub record HealthRequest : Type 0 where
  pub source_node_id : String
  pub timestamp : ℤ
  pub hlc : Option Hlc

pub record HealthResponse : Type 0 where
  pub healthy : Bool
  pub node_id : String
  pub timestamp : ℤ
  pub hlc : Option Hlc

-- What a remote call returns: a response, or the error of the gRPC library.
pub data Reply {ℓ} (A : Type ℓ) : Type ℓ where
  failed : Error → Reply A
  answered : A → Reply A
