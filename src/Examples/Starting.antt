-- ===== src/Examples/Starting.antt =====
-- An example for the first start of the program.
use wiregui.Base.{none, some, [], codes}
use wiregui.Database.{Database}
use wiregui.Nft.Table.{Table, table_nft}
use wiregui.Firewall.{setup_base_tables}
use wiregui.Events.{World}
use wiregui.Startup.{Seeds}
use wiregui.Examples.Samples.{sample_settings, sample_db, sample_configuration}
use wiregui.Examples.Chains.{table_or}
use wiregui.Examples.Peers.{wg0, memory_before}

abbrev seeds : Seeds
seeds = record {
  admin_id = codes "z";
  now = 1;
  salt = codes "salt";
  generated = codes "pw";
  fresh = sample_configuration;
  private_key = codes "SK";
  public_key = codes "PK";
  oidc = [];
  saml = [];
}

-- There is an administrator, but the server has no keys yet.
abbrev seeded : Database
seeded = record sample_db {
  configuration = some (record sample_configuration {
    server_private_key = some (codes "SK");
    server_public_key = some (codes "PK");
  });
}

abbrev no_table : Table
no_table = record { names = []; view = λ c. none }

abbrev first_world : World sample_settings table_nft wg0
first_world = record { host = memory_before; firewall = no_table }

abbrev base_table : Table
unfolding setup_base_tables
base_table = table_or no_table (setup_base_tables table_nft no_table)
