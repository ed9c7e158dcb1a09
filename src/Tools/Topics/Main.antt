-- ===== src/Tools/Topics/Main.antt =====
-- tools/console_clients/KafkaTopics.cc: `main`, with what the admin client is answered.
use modern_cpp_kafka.Prelude.{
  String, ℤ, Bool, Option, none, some, List, [], ◌∷◌, if◌then◌else◌, map,
}
use modern_cpp_kafka.Outcome.{RespErr, is_error, Outcome, ok, throw, ◌>>=◌, ◌>>◌}
use modern_cpp_kafka.Types.{Topic, Topics}
use modern_cpp_kafka.Properties.{PropertiesMap, str, put}
use modern_cpp_kafka.Error.{Error, value}
use modern_cpp_kafka.Admin.{AdminEvent, list_topics, create_topics, delete_topics}
use modern_cpp_kafka.Tools.Options.{Exit, exit_success, exit_failure}
use modern_cpp_kafka.Tools.Topics.{OpType, create, delete, list, Arguments, parse_arguments}

-- What the broker and librdkafka answer to the admin client.
pub record Answers : Type 0 where
  pub err2str : RespErr → String
  pub listed : RespErr
  pub topics : List Topic
  -- librdkafka's topic for a creation, by its partitions and replication factor, and its settings
  pub new_topic : ℤ → ℤ → Topic → Bool
  pub set_config : Topic → String → String → RespErr
  pub events : List (Option AdminEvent)
  pub first_listing : RespErr
  pub later_listings : List RespErr

-- What a run of the tool comes to: the topics that it asks to be created or deleted, those that it
-- prints, and its end. A request to delete a topic is told by the topic.
pub record Run : Type 0 where
  pub created : Option Topics
  pub deleted : Option (List Topic)
  pub printed : List Topic
  pub exit : Exit

abbrev pub failed : Run
failed = record { created = none; deleted = none; printed = []; exit = exit_failure }

abbrev pub exit_of : Error → Exit
exit_of e = if is_error (value e) then exit_failure else exit_success

abbrev pub names : Topics → List Topic
names topics = map (λ x. x.0) topics

unfoldable pub run_operation : Answers → OpType → Arguments → Run
run_operation a list args =
    let r = list_topics a.err2str a.listed a.topics in
    record failed {
      printed = if is_error (value r.error) then [] else names r.topics;
      exit = exit_of r.error;
    }
run_operation a create args =
    let (asked, error) =
      create_topics a.err2str (a.new_topic args.partitions args.replication_factor) a.set_config
        args.topic_props ((args.topic, tt) ∷ []) a.events a.first_listing a.later_listings in
    record failed { created = asked; exit = exit_of error }
run_operation a delete args =
    let (asked, error) =
      delete_topics a.err2str (λ topic. topic) ((args.topic, tt) ∷ []) a.events in
    record failed { deleted = some asked; exit = exit_of error }

-- `main`: every exception is caught. `client` is how making the admin client ends.
abbrev pub caught : Outcome Run → Outcome Run
caught (throw e) = ok failed
caught r = r

unfoldable pub main : (PropertiesMap → Outcome (Unit {0})) → Answers → List String → Outcome Run
unfolding parse_arguments run_operation
main client a argv = caught (
    parse_arguments argv >>= λ parsed. elim parsed [
      | none ↦ ok (record failed { exit = exit_success })
      | some args ↦ put "bootstrap.servers" (str args.broker_list) args.admin_config >>= λ conf.
          client conf >> ok (run_operation a args.op_type args)
    ])
