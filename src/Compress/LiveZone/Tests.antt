-- ===== src/Compress/LiveZone/Tests.antt =====
-- A run of the detection of live zones.
use cachy.Text.Space.{trim_space}
use cachy.Base.{if◌then◌else◌, ◌≡◌, refl, true, false, [], ◌∷◌, All, ok, err}
use cachy.Text.{contains, codes, equal}
use cachy.Text.Decimal.{print_nat}
use cachy.Text.Ascii.{to_upper, plain_tables}
use cachy.Compress.Block.{
  anthropic, system, openai, stable, live, text, Block, user_message, tool_result,
}
use cachy.Compress.LiveZone.{
  detect_anthropic, anthropic_blocks, anthropic_content_parts, anthropic_system_texts,
  anthropic_part_text, part_blocks, part_block, part_path, part_texts, system_blocks, system_block,
  equal, print_nat, JsonDecoder, Request, classify_source, content_path, block_id, assign_block_ids,
  new_block, openai_content_text, openai_texts, openai_blocks, detect_openai, detect_for,
  detect_live_zones,
}
use cachy.Compress.LiveZone.Classify.{classify_content}
use cachy.Compress.LiveZone.Zones.{IsZoned, detect_live_zones-IsZoned}

-- A decoder that finds a message of a user and one of a tool in every body.
abbrev decoder : JsonDecoder
decoder = record {
  openai_messages = λ body. ok (
      record { role = codes "user"; content = codes "hello" }
      ∷ record { role = codes "tool"; content = codes "a log" }
      ∷ []);
  anthropic_request = λ body. err (codes "no request");
  string_value = λ raw. ok raw;
  parts = λ raw. err (codes "no parts");
  json_valid = λ raw. false;
}

abbrev request : Request
request = record { provider = openai; body = codes "{}" }

abbrev hello : Block
hello = record {
  id = codes "block_1";
  provider = openai;
  path = codes "$.messages[0].content";
  role = codes "user";
  source = user_message;
  stability = stable;
  content_type = text;
  content = codes "hello";
  selected = false;
}

abbrev a_log : Block
a_log = record {
  id = codes "block_2";
  provider = openai;
  path = codes "$.messages[1].content";
  role = codes "tool";
  source = tool_result;
  stability = live;
  content_type = text;
  content = codes "a log";
  selected = true;
}

detect_live_zones_run : detect_live_zones plain_tables decoder request ≡ ok (hello ∷ a_log ∷ [])
unfolding detect_live_zones detect_for detect_openai openai_blocks openai_content_text openai_texts
    new_block classify_source content_path assign_block_ids block_id classify_content print_nat
    equal trim_space contains to_upper
detect_live_zones_run = refl

detect_live_zones-IsZoned_example : All IsZoned (hello ∷ a_log ∷ [])
detect_live_zones-IsZoned_example =
    detect_live_zones-IsZoned plain_tables decoder request (hello ∷ a_log ∷ [])
      detect_live_zones_run

-- A decoder that finds a system text and one message with two parts in every body.
abbrev parts_decoder : JsonDecoder
parts_decoder = record decoder {
  anthropic_request = λ body. ok (record {
    request_system = codes "be brief";
    messages = record { role = codes "user"; content = codes "parts" } ∷ [];
  });
  string_value = λ raw. if equal raw (codes "parts") then err (codes "no string") else ok raw;
  parts = λ raw. ok (
      record { kind = codes "text"; part_text = codes "hello"; part_content = [] }
      ∷ record { kind = codes "tool_result"; part_text = []; part_content = codes "a log" }
      ∷ []);
}

detect_anthropic_run :
    detect_live_zones plain_tables parts_decoder (record { provider = anthropic; body = [] })
    ≡ ok (
        record hello {
          provider = anthropic;
          path = codes "$.system";
          role = codes "system";
          source = system;
          content = codes "be brief";
        }
        ∷ record hello {
          id = codes "block_2";
          provider = anthropic;
          path = codes "$.messages[0].content[0].text";
        }
        ∷ record a_log {
          id = codes "block_3";
          provider = anthropic;
          path = codes "$.messages[0].content[1].content";
          role = codes "user";
        }
        ∷ [])
unfolding detect_live_zones detect_for detect_anthropic anthropic_blocks anthropic_content_parts
    anthropic_system_texts anthropic_part_text part_blocks part_block part_path system_blocks
    system_block new_block classify_source content_path assign_block_ids block_id classify_content
    print_nat equal trim_space contains to_upper
detect_anthropic_run = refl

part_texts_run :
    part_texts (record { kind = codes "text"; part_text = []; part_content = [] } ∷ []) ≡ []
unfolding part_texts
part_texts_run = refl
