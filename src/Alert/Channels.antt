-- ===== src/Alert/Channels.antt =====
-- internal/alert/config.go: the channels of a configuration, the migration of its oldest form, and
-- the routing of an event.
pub mod Routing
use teploy_dash.Common.{
  ℕ, String, Bool, true, false, not, ◌&&◌, ◌||◌, Option, none, some, List, [], ◌∷◌, ◌++◌, select,
  map, if◌then◌else◌, ℤ, pos, ◌==◌, string_eq,
}
use teploy_dash.Alert.{
  Alert, AlertKind, opened, test, summary, kind_name, wire_kind, Audience, everyone, human, machine,
}

pub data ChannelType : Type 0 where
  webhook slack discord ntfy email ship : ChannelType
  other_type : String → ChannelType

pub record Channel : Type 0 where
  pub id : String
  pub type : ChannelType
  pub name : String
  pub url : String
  pub secret : String
  pub token : String
  pub kinds : List String
  pub smtp_host : String
  pub smtp_port : ℤ
  pub smtp_user : String
  pub smtp_pass : String
  pub email_to : String
  pub email_from : String
  pub smtp_allow_insecure : Bool
  pub allow_internal : Bool

human_type : ChannelType → Bool
human_type slack = true
human_type discord = true
human_type ntfy = true
human_type email = true
human_type _ = false

-- Channel.Human
unfoldable pub is_human : Channel → Bool
unfolding human_type
is_human c = human_type c.type

usable_type : Channel → ChannelType → Bool
usable_type c email = not (c.smtp_host == "") && not (c.email_to == "")
usable_type c webhook = not (c.url == "")
usable_type c slack = not (c.url == "")
usable_type c discord = not (c.url == "")
usable_type c ntfy = not (c.url == "")
usable_type c ship = not (c.url == "") && not (c.secret == "")
usable_type c (other_type name) = false

-- Channel.Usable
unfoldable pub is_usable : Channel → Bool
unfolding usable_type
is_usable c = usable_type c c.type

pub record HeartbeatTarget : Type 0 where
  pub id : String
  pub name : String
  pub url : String
  pub allow_internal : Bool

pub record Config : Type 0 where
  pub channels : List Channel
  pub public_url : String
  pub heartbeats : List HeartbeatTarget
  pub heartbeat_interval_minutes : ℤ
  pub webhook_url : String
  pub webhook_secret : String
  pub smtp_host : String
  pub smtp_port : ℤ
  pub smtp_user : String
  pub smtp_pass : String
  pub email_to : String
  pub email_from : String
  pub smtp_allow_insecure : Bool

-- `has` of Migrate
has_channel : String → List Channel → Bool
has_channel id [] = false
has_channel id (c ∷ cs) = if c.id == id then true else has_channel id cs

blank_channel : String → ChannelType → String → Channel
blank_channel id type name = record {
  id = id;
  type = type;
  name = name;
  url = "";
  secret = "";
  token = "";
  kinds = [];
  smtp_host = "";
  smtp_port = pos 0;
  smtp_user = "";
  smtp_pass = "";
  email_to = "";
  email_from = "";
  smtp_allow_insecure = false;
  allow_internal = false;
}

legacy_webhook : Config → List Channel
unfolding has_channel blank_channel
legacy_webhook c =
    if not (c.webhook_url == "") && not (has_channel "webhook" c.channels)
    then record (blank_channel "webhook" webhook "Webhook") {
      url = c.webhook_url;
      secret = c.webhook_secret;
    }
      ∷ []
    else []

legacy_email : Config → List Channel
unfolding has_channel blank_channel
legacy_email c =
    if (not (c.smtp_host == "") || not (c.email_to == "")) && not (has_channel "email" c.channels)
    then record (blank_channel "email" email "Email") {
      smtp_host = c.smtp_host;
      smtp_port = c.smtp_port;
      smtp_user = c.smtp_user;
      smtp_pass = c.smtp_pass;
      email_to = c.email_to;
      email_from = c.email_from;
      smtp_allow_insecure = c.smtp_allow_insecure;
    }
      ∷ []
    else []

-- Config.Migrate
unfoldable pub migrate : Config → Config
unfolding legacy_webhook legacy_email
migrate c = record c {
  channels = legacy_webhook c ++ (legacy_email c ++ c.channels);
  webhook_url = "";
  webhook_secret = "";
  smtp_host = "";
  smtp_port = pos 0;
  smtp_user = "";
  smtp_pass = "";
  email_to = "";
  email_from = "";
  smtp_allow_insecure = false;
}

find_channel : String → List Channel → Option Channel
find_channel id [] = none
find_channel id (c ∷ cs) = if c.id == id then some c else find_channel id cs

-- Config.Channel
unfoldable pub channel_of : Config → String → Option Channel
unfolding find_channel
channel_of c id = find_channel id (migrate c).channels

-- ConfiguredChannels
unfoldable pub configured_channels : Config → List String
configured_channels c = map (λ (ch : Channel). ch.id) (select is_usable (migrate c).channels)

-- contains
unfoldable pub contains : List String → String → Bool
contains [] v = false
contains (x ∷ xs) v = if x == v then true else contains xs v

is_nil : List String → Bool
is_nil [] = true
is_nil (x ∷ xs) = false

in_audience : Audience → Bool → Bool
in_audience everyone h = true
in_audience human h = h
in_audience machine h = not h

-- The test of a channel's kind filter; a summary passes where an opening does.
pub wants_kind : List String → AlertKind → Bool
unfolding is_nil
wants_kind kinds test = true
wants_kind kinds summary = is_nil kinds || contains kinds (kind_name opened)
wants_kind kinds kind = is_nil kinds || contains kinds (kind_name kind)

-- The tests of ChannelsFor's loop, in their order.
unfoldable pub receives : Alert → Channel → Bool
unfolding is_nil in_audience wants_kind
receives e ch =
    is_usable ch
    && (is_nil e.only_channels || contains e.only_channels ch.id)
    && not (contains e.exclude_channels ch.id)
    && in_audience e.audience (is_human ch)
    && wants_kind ch.kinds (wire_kind e)

-- ChannelsFor
unfoldable pub channels_for : Config → Alert → List String
channels_for c e = map (λ (ch : Channel). ch.id) (select (receives e) (migrate c).channels)
