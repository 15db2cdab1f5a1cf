-- ===== src/Config.antt =====
-- internal/config/config.go: the configuration, its validation and its addresses. The environment, the
-- file system and cleanenv's reader are parameters. A time.Duration is its number of nanoseconds.
pub mod Valid
use Prim.Native.String.{◌++◌}
use shop_catalog_service.Common.{
  ℕ, String, Bool, ◌||◌, Option, none, some, List, str_eq, if◌then◌else◌,
}
use shop_catalog_service.Common.Int.{ℤ, pos, ltb_ℤ, leb_ℤ}
use shop_catalog_service.Common.Decimal.{int_text}
use shop_catalog_service.Errors.{Error, plain, wrap}
use shop_catalog_service.Exec.{Result, ok, err, panic}

-- GRPCConfig and HTTPConfig
pub record ServerConfig : Type 0 where
  pub port : ℤ
  pub timeout : ℤ

pub record PostgresConfig : Type 0 where
  pub host : String
  pub port : ℤ
  pub db_name : String
  pub user : String
  pub password : String
  pub ssl_mode : String

pub record RedisConfig : Type 0 where
  pub host : String
  pub port : ℤ
  pub password : String
  pub db : ℤ
  pub ttl : ℤ

-- Config; the OTLP section is its endpoint.
pub record Config : Type 0 where
  pub service_name : String
  pub env : String
  pub version : String
  pub log_level : String
  pub shutdown_timeout : ℤ
  pub grpc : ServerConfig
  pub http : ServerConfig
  pub otlp_endpoint : String
  pub postgres : PostgresConfig
  pub redis : RedisConfig
  pub kafka_brokers : List String

-- The test of a port.
pub bad_port : ℤ → Bool
bad_port port = leb_ℤ port (pos 0) || ltb_ℤ (pos 65535) port

-- Validate; nil is `none`.
unfoldable pub validate : Config → Option Error
unfolding bad_port
validate c =
    if str_eq c.service_name ""
    then some (plain "service_name is required")
    else if str_eq c.env ""
    then some (plain "env is required")
    else if bad_port c.grpc.port
    then some (plain "grpc.port must be in range 1..65535")
    else if bad_port c.http.port
    then some (plain "http.port is required")
    else if leb_ℤ c.grpc.timeout (pos 0)
    then some (plain "grpc.timeout must be > 0")
    else if leb_ℤ c.http.timeout (pos 0)
    then some (plain "http.timeout must be > 0")
    else if leb_ℤ c.shutdown_timeout (pos 0)
    then some (plain "shutdown_timeout must be > 0")
    else if str_eq c.otlp_endpoint ""
    then some (plain "otlp.endpoint is required")
    else none

-- GRPCAddr and HTTPAddr
unfoldable pub addr : ServerConfig → String
addr s = ":" ++ int_text s.port

unfoldable pub grpc_addr : Config → String
unfolding addr
grpc_addr c = addr c.grpc

unfoldable pub http_addr : Config → String
unfolding addr
http_addr c = addr c.http

unfoldable pub postgres_dsn : Config → String
postgres_dsn c =
    "postgres://"
    ++ (c.postgres.user
        ++ (":"
            ++ (c.postgres.password
                ++ ("@"
                    ++ (c.postgres.host
                        ++ (":"
                            ++ (int_text c.postgres.port
                                ++ ("/"
                                    ++ (c.postgres.db_name
                                        ++ ("?sslmode=" ++ c.postgres.ssl_mode))))))))))

unfoldable pub redis_addr : Config → String
redis_addr c = c.redis.host ++ (":" ++ int_text c.redis.port)

-- os.Getenv, whether os.Stat finds no file there, and cleanenv.ReadConfig.
pub record Files : Type 0 where
  pub getenv : String → String
  pub is_missing : String → Bool
  pub read_config : String → Result Config

-- The end of Load, on what Validate answers.
pub validated : Config → Option Error → Result Config
validated cfg none = ok cfg
validated cfg (some e) = err e

pub read : Result Config → Result Config
unfolding validated
read (ok cfg) = validated cfg (validate cfg)
read (err e) = err (wrap "failed to read config: " e "")
read panic = panic

-- panic(err) in place of the error.
or_panic : {A : Type 0} → Result A → Result A
or_panic (ok a) = ok a
or_panic (err e) = panic
or_panic panic = panic

module _ (files : Files) where
  unfoldable pub load : String → Result Config
  unfolding read
  load path =
      if str_eq path ""
      then err (plain "config path is empty")
      else if files.is_missing path
      then err (plain ("config file does not exist: " ++ path))
      else read (files.read_config path)

  unfoldable pub must_load_by_path : String → Result Config
  unfolding load or_panic
  must_load_by_path path = or_panic (load path)

  unfoldable pub must_load : Result Config
  unfolding load or_panic
  must_load =
      let path = files.getenv "CONFIG_PATH" in
      if str_eq path "" then panic else or_panic (load path)
