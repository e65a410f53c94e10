-- ===== src/Ddns/Message.antt =====
-- _modules/ddns.py: what it says to a name server, `_config` and `_get_keyring`. The name server and
-- the library dnspython are the parameter `Dns`; a keyring is the text of its file.
use ffmuc_salt_public.Prelude.{
  ℕ, String, ◌<>◌, Option, none, some, List, [], ◌∷◌, ◌++◌, Eq, if◌then◌else◌, ◌==◌, string_eq,
  String-discrete,
}
use native.Mathlib.Decide.{ℕ_discrete}
use ffmuc_salt_public.Prelude.Result.{Result, ok, err}
use ffmuc_salt_public.Prelude.Exec.{Exec}

-- The data of a record; an A or AAAA record has an attribute `address`.
pub record Rdata : Type 0 where
  pub rdtype : ℕ
  pub text : String
  pub address : Option String

unfoldable pub Rdata-discrete : Discrete Rdata
Rdata-discrete = hlevel (String-discrete, ℕ_discrete)

instance unfoldable pub rdata_eq : Eq Rdata
unfolding Rdata-discrete
rdata_eq = record { dec = Rdata-discrete }

pub record Rrset : Type 0 where
  pub ttl : ℕ
  pub items : List Rdata

pub record Question : Type 0 where
  pub fqdn : String
  pub rdtype : String

pub data Command : Type 0 where
  replace : (name : String) (ttl : ℕ) (rdata : Rdata) → Command
  add : (name : String) (ttl : ℕ) (rdata : Rdata) → Command
  delete_rdata : (name : String) (rdata : Rdata) → Command
  delete_type : (name : String) (rdtype : ℕ) → Command
  delete_name : (name : String) → Command

-- `dns.update.Update`, with the one command that is put into it
pub record UpdateMessage : Type 0 where
  pub zone : String
  pub keyring : Option String
  pub keyname : Option String
  pub keyalgorithm : String
  pub command : Command

pub data Message : Type 0 where
  question : Question → Message
  change : UpdateMessage → Message

pub record Server : Type 0 where
  pub nameserver : String
  pub timeout : ℕ
  pub port : ℕ

pub record Sent : Type 0 where
  pub server : Server
  pub message : Message

pub record Answer : Type 0 where
  pub answer : List Rrset
  pub rcode : ℕ

-- The name server with a state of its own, `dns.message.make_query`, `dns.rdatatype.from_text`,
-- `dns.rdata.from_text`, what dnspython says to the parts of an update, the minion's configuration,
-- and the keyring in a file.
pub record Dns : Type 1 where
  pub State : Type 0
  pub udp : Sent → State → Result Answer × State
  pub make_query : String → String → Result Question
  pub rdatatype : String → Result ℕ
  pub rdata : ℕ → String → Result Rdata
  pub accepts : UpdateMessage → Result (Unit {0})
  pub option : String → String
  pub keyring : String → Result String

-- The state of a run: the server's, and the messages in the order in which they are sent.
pub record World (dns : Dns) : Type 0 where
  pub state : dns.State
  pub sent : List Sent

-- The keyword arguments that are passed on, each given (None included) or not
pub record Kwargs : Type 0 where
  pub keyfile : Option (Option String)
  pub keyname : Option (Option String)
  pub keyalgorithm : Option (Option String)

-- None for what is false: None itself and the empty text
abbrev pub truthy : Option String → Option String
truthy none = none
truthy (some s) = if s == "" then none else some s

module _ (dns : Dns) where
  -- `dns.query.udp`
  unfoldable pub udp : Server → Message → Exec (World dns) Answer
  udp server message w =
      let sent : Sent = record { server = server; message = message } in
      let (reply, state) = dns.udp sent w.state in
      (reply, record { state = state; sent = w.sent ++ (sent ∷ []) })

  -- `_config`, with the argument of that name
  unfoldable pub config : String → Option (Option String) → Option String
  config name (some given) = given
  config name none = truthy (some (dns.option ("ddns." <> name)))

  read_keyring : Option String → Result (Option String)
  read_keyring none = ok none
  read_keyring (some file) = elim (dns.keyring file) [ ok ring ↦ ok (some ring) | err e ↦ err e ]

  -- `_get_keyring`
  unfoldable pub get_keyring : Option String → Result (Option String)
  unfolding read_keyring
  get_keyring keyfile = read_keyring (truthy keyfile)

abbrev or_md5 : Option String → String
or_md5 none = "HMAC-MD5.SIG-ALG.REG.INT"
or_md5 (some s) = s

module _ (dns : Dns) where
  -- `dns.update.Update(…)` with its command
  unfoldable pub make_update : String → Kwargs → Option String → Command → UpdateMessage
  unfolding config
  make_update zone kwargs keyring command = record {
    zone = zone;
    keyring = keyring;
    keyname = config dns "keyname" kwargs.keyname;
    keyalgorithm = or_md5 (truthy (config dns "keyalgorithm" kwargs.keyalgorithm));
    command = command;
  }
